-- ===== src/Tests.antt =====
-- Runs of the model on the inputs of the repository's tests, and the theorems at concrete inputs.
mod Version
mod FilePath
mod World
mod Files
mod Store
mod Migrate
mod Client
mod OsRelease
mod Lock
mod Detect
mod Host
mod VirtualBox
mod Commands
mod Wait
mod Driver
mod AmazonEc2
mod ConfigureAuth
