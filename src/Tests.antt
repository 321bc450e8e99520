-- ===== src/Tests.antt =====
-- Runs of the models on concrete inputs.
mod Images
mod Plans
mod Boots
mod Probes
mod Writes
mod Disks
mod Uplinks
mod Hosts
