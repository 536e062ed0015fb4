-- ===== src/Inject.antt =====
-- internal/inject: the webhook that puts the proxy beside the containers of a pod.
pub mod Owner
pub mod Pod
pub mod Patches
pub mod Mutate
pub mod Escape
pub mod Pointer
pub mod Apply
mod Tests
