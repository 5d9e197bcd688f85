-- ===== src/Infra/Service.antt =====
-- What the ensurer uses of NSX-T, which is not part of the repository: the policy API by one client
-- for each kind of object, the manager ("Advanced") API, the clock, and the generators of ids.
-- Every operation takes the world and gives it back, so a call may depend on all earlier ones.
use gardener_extension_provi.Base.{ℕ, String, List, Option}
use gardener_extension_provi.Infra.Action.{ApiError}

pub data Answer (A : Type 0) : Type 0 where
  got : A → Answer A
  failed : ApiError → Answer A

-- An object in an answer: the id and the path are set by the server.
pub record Stored (O : Type 0) : Type 0 where
  pub id : String
  pub path : String
  pub object : O

-- One page of a listing.
pub record Page (I : Type 0) : Type 0 where
  pub results : List I
  pub result_count : ℕ
  pub cursor : Option String

-- A client for the objects `O` below a parent `P`.
pub record Client (W P O : Type 0) : Type 0 where
  pub get : P → String → W → Answer (Stored O) × W
  pub update : P → String → O → W → Answer (Stored O) × W
  pub patch : P → String → O → W → Answer (Unit {0}) × W
  pub delete : P → String → W → Answer (Unit {0}) × W
  pub list : P → Option String → W → Answer (Page (Stored O)) × W

-- An object that is only looked up, by its display name, which is followed without a test.
pub record Named : Type 0 where
  pub display_name : Option String
  pub id : String
  pub path : String

-- An answer of the manager API. Without an error there is a response with a status code; with an
-- error there may be none.
pub data Reply (A : Type 0) : Type 0 where
  answered : ℕ → A → Reply A
  refused : Option ℕ → ApiError → Reply A

pub record Identified (O : Type 0) : Type 0 where
  pub id : String
  pub object : O

pub record ManagerClient (W P O : Type 0) : Type 0 where
  pub read : P → String → W → Reply O × W
  pub update : P → String → O → W → Reply (Unit {0}) × W
  pub create : P → O → W → Reply (Identified O) × W
  pub delete : P → String → W → Reply (Unit {0}) × W
  pub list : P → W → Reply (List (Identified O)) × W
