-- ===== src/Qemu.antt =====
-- internal/qemu: the virtual machines of the test bench. Qemu.Bmc is bmc.go, Qemu.Machines is machines.go;
-- Talos' provisioner is a parameter.
pub mod Bmc
pub mod Machines
