-- ===== src/Infra.antt =====
-- The infrastructure ensurer: pkg/vsphere/infrastructure, the state it keeps
-- (pkg/apis/vsphere/types_infrastructure.go), the NSX-T service it drives, and its tasks.
pub mod State
pub mod Action
pub mod Service
pub mod Object
pub mod Lookup
pub mod Dhcp
pub mod Equality
pub mod Resource
pub mod Context
pub mod Gateway
pub mod Locale
pub mod Network
pub mod Realize
pub mod Managed
pub mod Advanced
pub mod Task
pub mod Ensurer
pub mod Safety
pub mod Converge
pub mod Deletion
pub mod Tests
