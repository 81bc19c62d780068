-- ===== src/Lib.antt =====
-- Verification of the core of the RDP server: its session lifecycle, its screen damage detection,
-- its session supervision, its authentication, its input, its clipboard, the sessions of its
-- desktop portal and its colour conversion.
--
-- Parts and files (paths are from the root of the repository):
-- - Sesman: src/sesman. `Process` is process.rs, `State` the types of state.rs, and `Health`,
--   `Teardown`, `Registry`, `Cleanup`, `Start` and `Ensure` the manager of mod.rs: the status of a
--   session, the signals that stop it, the clients that come and go, the cleanup of idle sessions, and their
--   start. What the kernel and the file system show and answer at each moment of a call is an
--   argument of it; what each round of a wait sees, and the clock in it, are functions of the round.
--   `Scalars`, `Ini` and `Render` are the configuration file of state.rs: its values, its parser over
--   lines and its printer, which pushes a line feed behind each of its lines; `Validate` is what `load`
--   makes of a file, and in `Validate/ForUser` the configuration of an account.
-- - Damage: src/rdp/channels/graphics/damage. `Region` is region.rs, `Regions` regions.rs, `Compare`
--   compare.rs, `Stats` config.rs and stats.rs, `Detector` detector.rs. The detector compares each frame
--   with the last one tile by tile, turns dirty tiles into regions, merges them and filters them.
-- - Supervision: src/rdp/session/supervision/mod.rs, and monitor.rs in `Supervision/Monitor`. The
--   subsystems report events to one loop, which keeps the status that subscribers read.
-- - Auth: src/auth. `PeerLimit` is peer_limit.rs, `Username` username.rs and `StaticPassword`
--   static_password.rs, which uses the two others.
-- - Clipboard: src/rdp/channels/clipboard. `LoopDetector` is core/loop_detector.rs, `Sync` sync.rs,
--   which decides through a loop detector who owns the clipboard, and `Transfer` core/transfer.rs.
--   `Sanitize` is core/sanitize.rs; `Formats` core/formats.rs, with the code pages, file descriptors and
--   RTF in its children, where a file is announced under its cleaned name; and `Wire` what manager.rs
--   makes of a text for the client and of one from it.
-- - Portal: src/desktop/portal/xdg_desktop. `Types` is types.rs and error.rs, `Session` session/state.rs,
--   and `Manager` session/manager.rs, which keeps the sessions and their number for each application.
-- - Color: src/rdp/channels/graphics/egfx/color. `Convert` is the scalar code of convert.rs, and `Packing`
--   the two views of a frame in yuv444_packing.rs.
-- - Input: src/rdp/channels/input. `Mapper` is mapper.rs, `Keyboard` keyboard.rs, which translates by it,
--   and `Mouse` the buttons of mouse.rs.
-- - Prelude: shared names, Boolean tests, lists, maps, texts, signed numbers and machine words.
--
-- Each operation is one function with the name it has in the source, from the state and its
-- arguments to the new state and the result. Loops are structural recursion, where the source
-- counts up with the number of rounds to go as the argument; the loop of `merge_regions` that
-- runs until nothing changes has as many rounds as there are regions, and each round that changes
-- something leaves fewer. The reader of RTF, each of whose rounds consumes a character, has as
-- many rounds as there are characters. A wait has a round for each started 100 milliseconds of
-- its timeout and one more: where the clock advances by each sleep, they are enough. Wrapping and
-- saturating operations on u8, u32 and u64 are written out where they can be reached; counters of
-- u64 that only grow by one per call are plain numbers. An idle deadline that `chrono` has no
-- date for is a panic, a result of its own. Clocks are arguments: a call that reads the clock
-- takes its value, and one that reads it twice reads one value. Locks make each call one step.
-- Floats are a record of the functions that the code uses. A text is a list of code points, and
-- where its bytes in UTF-8 are only counted, they are not written out. SHA-256, Argon2, the
-- character classes and the case mappings of Unicode are parameters. A map with text keys in
-- order is a list of pairs, and so is a hash map that is iterated over, the last entry first, in
-- whose order sessions that are closed together are handed out. A set of keys is its test.
--
-- Not modelled: log lines and displayed texts, the codecs of images, the HTML format and the
-- lists of URIs on the clipboard, the vector code of the colour conversion, the coordinates of
-- the input channel, the capture of the screen, D-Bus, Wayland and PipeWire, and the asynchronous
-- tasks between them.
mod Prelude
pub mod Sesman
pub mod Damage
pub mod Supervision
pub mod Auth
pub mod Clipboard
pub mod Portal
pub mod Color
pub mod Input
