-- ===== src/Lib.antt =====
-- Rancher Machine: the core of libmachine, the library that creates machines, keeps them and runs
-- Docker on them, with the theorems that say what its operations guarantee.
--
-- The parts and their files.
--   * Version: libmachine/versioncmp/compare.go. `compare` and the five comparisons of versions,
--     over texts as lists of bytes.
--   * Errors, State, Options: the shared data (libmachine/mcnerror, state, auth, engine, swarm,
--     mcnflag).
--   * Wait: the polling loops of libmachine/mcnutils/utils.go.
--   * Driver: libmachine/drivers/drivers.go, base.go (Driver/Defaults) and serial.go
--     (Driver/Serial). The interface `Driver` is a record of methods that act on a world.
--   * Provision: the interface of a provisioner and the wait for the Docker daemon
--     (libmachine/provision/utils.go, pkgaction, serviceaction). Provision/Detect finds the
--     provisioner for a machine (provisioner.go, and the wait for SSH of
--     libmachine/drivers/utils.go), over the registered ones in whatever order their map gives
--     them, and Provision/Compatible has their tests of compatibility (arch.go, fedora.go, suse.go
--     and others). Provision/Lock waits for the lock of the package manager, and Provision/Systemd
--     has the services under systemd (systemd.go). Provision/OsRelease reads /etc/os-release
--     (libmachine/provision/os_release.go). Provision/ConfigureAuth installs the certificates and
--     starts the daemon, and chooses the storage driver (utils.go).
--   * Client: libmachine/libmachine.go. Load takes a host from the store and gives it a driver,
--     the one of Driver/NotFound (drivers/errdriver/error.go) if its plugin is not found. Create
--     goes through the certificates, the driver, the store, the polling loops and the provisioner.
--   * Host: libmachine/host/host.go. Start, stop, kill, restart, upgrade and provision call the
--     driver, the polling loops and the provisioner. Host/Legacy has the older formats of a
--     configuration and the steps between them (host_v0.go, host_v2.go, migrate_v0_v1.go,
--     migrate_v1_v2.go, migrate_v2_v3.go), and Host/Migrate has `MigrateHost` (migrate.go).
--   * VirtualBox: drivers/virtualbox. VirtualBox.antt runs VBoxManage (vbm.go), whose process is a
--     parameter. VirtualBox/Ip has the addresses and masks of IPv4 of Go's `net`, Network and Dhcp
--     the host-only networks and their DHCP servers (network.go), and Collision the interfaces of
--     the host that conflict with them. Machine has the fields of the driver and the questions
--     about its machine, Machine/Control and Machine/Start its operations (virtualbox.go, ip.go,
--     vtx.go), Disk the disk image (disk.go), and Create the flags of the driver and the making of
--     a machine (virtualbox.go, vm.go).
--   * AmazonEc2: drivers/amazonec2/amazonec2.go, over a record of the calls of its client.
--     AmazonEc2/Groups has the security groups and the ports that they let in (also
--     drivers/driverutil/util.go), AmazonEc2/Instance the instance: its state and address, starting,
--     stopping and removing it.
--   * Commands: the commands on machines that are named (commands/commands.go, rm.go, status.go,
--     url.go, regeneratecerts.go, libmachine/persist/store.go), over a record of what they use of
--     the API and the terminal. Commands/Ls has the filters of ls, Commands/Ls/Items what ls asks
--     of each host, and the command active (ls.go, active.go), and Commands/Scp the command line
--     of scp (scp.go).
--   * FileSystem: the calls of `os` and `io/ioutil`, on a tree of files. Each call uses up one
--     entry of a list of faults, which says whether it fails; with an empty list the calls do what
--     they can.
--   * Store: libmachine/persist/filestore.go. It saves a host through the file system, and loads
--     one through `MigrateHost`, after which a migrated host is saved again.
--   * Base, Text: helpers. Base has integers, results with a state, and lists; Text has the
--     functions of `strings`, `strconv`, `bufio` and `path/filepath` that the code calls, and maps
--     with texts for keys.
--   * Tests: runs of the model, and each theorem at a concrete input.
--
-- A Go function that returns `(T, error)` and acts on something is a function from a world to a
-- result and a world, so what was done before an error stays done. A method with a pointer
-- receiver that fills in a default returns the changed struct. A nil pointer that the code follows
-- is the error `panic`. Log messages are left out. Integers are those of a 64-bit Go; only
-- `strconv.Atoi` brings them near a bound, and it clamps there.
--
-- Loops. A polling loop runs for as many rounds as it has attempts. The loop of `MigrateHost`
-- runs for as many rounds as there are versions between the file's and the present one, which
-- is proved to be enough: it ends at the present version. The filling of a disk image with
-- zeros runs for one round more than it has whole blocks, which is proved to be enough where no
-- write is short without an error. The loop that waits for a VirtualBox machine to stop has no
-- bound in the source; the model gives it a number of rounds and the error `endless` after
-- them, and it is proved to end by the first poll that finds the machine not running.
--
-- Actions on several machines, and questions to several hosts, which the program runs at the
-- same time, are taken one after another, in an order that is a parameter. A pointer that two
-- maps share is written through to both (`VirtualBox.Dhcp`). Blanks and capitals are those of
-- ASCII, and addresses those of IPv4.
--
-- Parameters, for code that is not in the repository or that reaches outside: what `time.Sleep`
-- lets happen, the text of an error where the code looks into it, the lock of a serial driver,
-- the methods of a driver and of a provisioner, the SSH command of a driver, the detector of
-- provisioners, the comparison of a version's number with 15.04 by `strconv.ParseFloat`, the
-- versioner of Docker and the generator of certificates (`Host.Env`), the files, the hosts of
-- URLs and the generator that ConfigureAuth uses (`Provision.ConfigureAuth.Setup`), the factory
-- of plugin drivers and the check of the connection to Docker (`Client.Client`),
-- `encoding/json` (`Host.Legacy.Codec` and `marshal`), the tools of the driver of VirtualBox
-- (`VirtualBox.Machine.Tools`: SSH, sockets, random numbers, the image of Boot2Docker, the
-- generator of keys, the facts of the platform), the calls of the client of Amazon EC2
-- (`AmazonEc2.Ec2Client`, of which a theorem assumes that a question for the groups of the
-- default name finds only such groups), the API and the terminal (`Commands.Api`), the regular
-- expressions of a filter by name, the order of names that `naturalsort` makes, and the name
-- that `ioutil.TempFile` picks, of which the theorems assume that no file bears it and that it
-- is not that of the file to save.
--
-- Not modelled: the commands create, env, inspect, config, ssh and mount and the table
-- that ls prints, the rest of the provisioners of the distributions, the plugins and their RPC,
-- SSH, certificates, the making of an instance of Amazon EC2 with its key pair, tags and flags, and
-- the drivers of the other clouds and hypervisors.
pub mod Base
pub mod Text
pub mod Version
mod Tests
pub mod Errors
pub mod State
pub mod AmazonEc2
pub mod VirtualBox
pub mod Commands
pub mod Wait
pub mod Options
pub mod Driver
pub mod Provision
pub mod Host
pub mod FileSystem
pub mod Store
pub mod Client
