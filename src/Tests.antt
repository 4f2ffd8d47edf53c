-- ===== src/Tests.antt =====
-- Concrete instances of what the repository does not hold, runs of the model on them, and the
-- theorems at concrete inputs.
mod Cluster
mod Controller
mod Policies
mod Endings
mod Watching
mod KernelModel
mod Keys
mod Entries
mod Loading
mod Starting
mod Texts
mod Commands
mod Healthy
mod Interfering
mod Guarded
mod Registering
mod Owning
mod Encapsulating
mod Sessions
mod Sources
mod Copying
mod Packets
mod Decapsulating
