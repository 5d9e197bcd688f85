-- ===== src/Worker/Sizes.antt =====
-- The sizes of a machine, against the quantities of its type.
use gardener_extension_provi.Base.{ℕ, Option, none, some, ◌≡◌, ◌<◌, ◌≤◌, ◌+◌, ◌*◌}
use gardener_extension_provi.Base.Int.{ℤ, pos}
use gardener_extension_provi.Fallible.{Fallible}
use gardener_extension_provi.Profile.{MachineType}
use gardener_extension_provi.Worker.{MachineValues}

-- The number of whole units in a quantity of bytes.
abbrev pub Counts : ℕ → ℕ → Option ℤ → Type 0
Counts unit n size =
    (bytes : ℕ) × (size ≡ some (pos bytes)) × (n * unit ≤ bytes) × (bytes < n * unit + unit)

-- 20 GB where the type brings no storage, and else the whole GiB of its storage.
abbrev pub IsDisk : Option (Option ℤ) → ℕ → Type 0
IsDisk none n = n ≡ 20
IsDisk (some size) n = (10 ≤ n) × Counts 1073741824 n size

abbrev pub IsSizedBy : MachineType → MachineValues → Type 0
IsSizedBy t values =
    ((0 < values.num_cpus) × (t.cpu ≡ some (pos values.num_cpus)))
    × ((0 < values.memory_in_mb) × Counts 1048576 values.memory_in_mb t.memory)
    × IsDisk t.storage_size values.system_disk_size_in_gb
