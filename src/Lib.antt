-- ===== src/Lib.antt =====
-- freshen: authenticated desktop updates (the Rust crate at the repository's root).
--
-- The program finds a signed release manifest, decides whether it is an update, downloads and
-- unpacks the package, and installs it through a journaled transaction with rollback. This library
-- models the parts below and proves what makes them correct.
--
--   Base        shared notation: tests, lists, sets by an equality, bytes (`str`), `Result` of
--               src/error.rs (Outcome), and fallible code over a world (Exec)
--   SafePath    `check_path` of src/manifest.rs; Grammar and Parts describe what it accepts,
--               Devices the Windows names, Confined how an operating system follows such a path
--   Manifest    the data types, `check_hash` and `ReleaseManifest::validate` of src/manifest.rs
--   Source      `ManifestLocation`, `ReleaseSource` and GitHub's metadata of src/updater.rs
--   Crates      what comes from other crates, as parameters
--   Trust       `TrustStore`, `SignedManifest` and `signing_message` of src/manifest.rs
--   Transport   `Event`, `Cancellation`, the `Transport` trait and `fetch` of src/transport.rs; Http
--               is `HttpTransport::download`
--   Updater     `Updater::check` of src/updater.rs
--   Policy      `InstallLayout` and `InstallPolicy` of src/install.rs
--   Archive     `extract` of src/archive.rs and `inventory` of src/manifest.rs
--   Prepare     `Updater::prepare` of src/updater.rs
--   Storage     the files of src/fsutil.rs: Tree and Lookup are trees and places in them, Frames and
--               Effects say which places an operation changes, Contents and Retries what it leaves
--   Install     the transaction of src/install.rs. Folders, Listing, Stage, Apply and Recovery hold its
--               operations; Restore, Rollback, Crash and Undo are about the rollback, Backing,
--               Backed, Forward, Checking and Applied about `apply`, Recovered and Crashes about a crash
--               and the recovery, Discard about the end of a transaction; Arm is its start
--   Shared      `publish` and `inspect` of src/shared.rs
--   Helper      src/helper.rs: the files by which the processes talk and the session that one of them
--               sees. Execute is `run_helper` and `execute`, Confirm and Listed `confirm_startup`,
--               Launch `launch` and `Handoff::cancel`; Waiting, Keeping, Running, Untouched and
--               Declined are about the wait for the parent, Progress about its end, Finishing,
--               Confirming, Ending and Settled about the installation and the confirmation, Program,
--               Inspected, Acknowledged and Evidence about `confirm_startup`, Launched about `launch`
--   Release     src/bin/release.rs over files by their paths: Sign is `keygen` and `sign`, Merge `merge`,
--               Collect `collect_files`, Pack `pack` and the choice of the command; Files says what
--               reads and writes do, Signed, Merged and Listed are about the commands
--   Ffi         the C interface in ffi/src: error.rs here, Util is util.rs, Sink transport.rs, Arming
--               install.rs, Updating updater.rs. Behaves says what a body does to its caller; Kept,
--               Bounded, Ended and Sticky are about a download by the host, Once about
--               `freshen_arm`, Trusted about `freshen_updater_new`
--   Tests       runs at concrete inputs, and each theorem at one of them
--
-- A text is the list of its bytes. A `BTreeSet` is a list without repetition (that of
-- `list_files` ascending), a `BTreeMap` the list of its entries in order. Function names are the
-- source's; a loop is a function of its own.
-- Sizes are natural numbers; sums on machine integers keep their overflow test.
--
-- The host of an update check (its transport, its cancellation flag and the receiver of its
-- events) is a record of operations on an unknown world (Transport.Host), so that the flag may be
-- set by another thread between any two loads. The operations of other crates (semver, url, base64,
-- ed25519_dalek, sha2, serde_json) are the fields of Crates.Crates; the total order of versions is
-- the one law assumed, and only where a theorem says so.
--
-- The disk of an installation (Storage.Disk) is the root as a tree of files, and beside it the
-- directory `.freshen/transaction`, whose files and directories are the fields of Storage.Folder: no
-- checked path leads into it from the root. Names are compared byte by byte. A link is never
-- followed: the code refuses links on the paths that it joins, and a link that another process
-- puts there afterwards is not modelled. The list `faults` of a disk says for each next call of the
-- system whether it fails, so that a theorem over all lists covers every error and, as a list may
-- let all calls fail from some point on, every crash. A sequence of calls that only reads, or only
-- writes a temporary file before its rename, is one call; the removal of a directory is one call.
-- `Path::exists` and `Path::is_dir` have no error: where the call fails they say that nothing is
-- there. Platform.sees says at each place (Install.Site), as it depends on the disk, whether such a
-- test is answered, and Release.Tools.sees the same for the release tool. Where the test of `apply`
-- at an item fails, the code replaces an item that it has not copied.
-- The tests of a deadline are read from the list `clock`. The texts of plans and journals, and the
-- commands `codesign` and `lipo`, are parameters (Install.Platform); that a printed journal is read
-- back is assumed where a theorem says so.
--
-- The helper, the application that is updated and the new one are separate processes. A session
-- (Helper.Session) is what one of them sees: the disk, the answer of the parent to a signal, the exit
-- status of the child, and the list of what the others do next. One deed of that list happens before
-- each look at the others, so that a theorem over all lists covers their interleavings, as far as
-- they write the files by which they talk and touch nothing else of the transaction. The loops
-- of the helper have ten rounds for a second of their timeout, since a round sleeps 100 ms, and the
-- wait for the helper has 600 rounds of 50 ms for its 30 s.
--
-- Fuel: the ancestor loop of `validate` runs on the length of the path, since each round shortens
-- it. `str::trim` runs on the length of the text. A retried copy has 50 rounds: each sleeps 200 ms, and
-- the deadline is 10 s away. A download runs on two rounds more than its limit, as each round but
-- the last adds a byte; that this is enough is proved. A number of 64 bits is
-- printed with 20 rounds, one for each digit. All other loops walk a list or a tree.
--
-- The C interface is modelled at its boundary: a pointer is an option, a null pointer being none, an
-- `i32` is given by its 32 bits, the sizes of structures are those of a machine of 64 bits, and the
-- operations of the library are parameters. A transport of the host is a tree of its calls on the
-- sink, which may choose each next one by the answers.
--
-- Not modelled: the configuration of the HTTP client, the release of handles and texts of the C
-- interface, its handles of cancellations, and the bindings in other languages.
pub mod Base
pub mod SafePath
pub mod Manifest
pub mod Source
pub mod Crates
pub mod Trust
pub mod Transport
pub mod Updater
pub mod Storage
pub mod Install
pub mod Archive
pub mod Prepare
pub mod Shared
pub mod Helper
pub mod Release
pub mod Ffi
pub mod Policy
mod Tests
