-- ===== src/Lib.antt =====
-- The core of a Wayland desktop: its window manager, its layer surfaces and session lock, and its
-- notification server.
--
-- The compositor (crates/compositor-slint) keeps one `WindowManager`. Each client's toplevel is a
-- `WindowState` in it, whose geometry and opacity are animated by springs. The renderer registers
-- new toplevels and closes destroyed ones, forwards clicks, Alt-Tab and the window commands, and
-- calls `tick_auto` once a frame. While the user drags a title bar or an edge, it computes the new
-- geometry from the pointer and, near an edge of the work area, a snap rectangle. Panels and docks
-- are layer surfaces, laid out once a frame; what they reserve goes to the window manager. Input
-- goes to the surface that a hit test finds, or to a lock surface while the session is locked. The
-- notification daemon (crates/notification) is a process of its own: a D-Bus server with a table of
-- active notifications, a bounded history and a channel of events to the shell.
--
-- Spring.antt           `Spring` of crates/compositor-slint/src/wm/mod.rs
-- Window.antt           `WorkArea`, `AnimPhase`, `WindowAnimState`, `WindowState` of that file;
--                       Window/Lifecycle.antt has the methods `start_*` and `tick` of a window
-- Wm.antt               `WindowManager` of that file; Wm/Focus.antt the focus stack, Wm/Place.antt
--                       registration and closing, Wm/Geometry.antt moves and frames,
--                       Wm/AltTab.antt, Wm/Pointer.antt hit tests and listings
-- Wm/Step.antt          the calls of the renderer as a machine, with `sync_new_toplevels` of
--                       crates/compositor-slint/src/renderer.rs
-- Layer.antt            crates/compositor-slint/src/wayland/layer_shell.rs: what is kept of a layer
--                       surface; Layer/Rect.antt places one, Layer/Arrange.antt lays out an output
-- Compositor.antt       `SpikeState` of crates/compositor-slint/src/wayland_state.rs;
--                       Compositor/Outputs.antt its outputs, Compositor/Layers.antt the handlers
--                       of layer_shell.rs, Compositor/Lock.antt wayland/session_lock.rs and the
--                       confirmation in wayland/compositor.rs, Compositor/Hits.antt and
--                       Compositor/Input.antt renderer/input_util.rs; Compositor/Session.antt is
--                       all of their calls as a machine
-- Compositor/Resizing.antt  the resize transactions of wayland_state.rs
-- Toplevel.antt         the table `toplevels` of `SpikeState`: Toplevel/X11.antt the handlers of
--                       crates/compositor-slint/src/wayland/xwayland.rs, Toplevel/Xdg.antt those of
--                       wayland/xdg_shell.rs, Toplevel/Focus.antt the focus on activation and the
--                       clipboard test, Toplevel/Titles.antt `sync_foreign_toplevels`;
--                       Toplevel/Steps.antt is all of the calls on the table as a machine
-- Desktop.antt          `CompositorApp` of crates/compositor-slint/src/renderer.rs with the window
--                       manager and the table together: Desktop/Drag.antt and
--                       Desktop/Snapping.antt the motion of a drag, its snap and its release,
--                       Desktop/Requests.antt `process_xdg_requests`, Desktop/Actions.antt
--                       `process_wm_actions`
-- Typing.antt           `ascii_to_scancode` of renderer/input_util.rs and the command TypeText
-- Calendar.antt         crates/compositor-slint/src/renderer/calendar.rs
-- Bbox.antt             crates/compositor-slint/src/wayland_state.rs (detect_visible_bbox)
-- Tray.antt             crates/status-notifier/src/watcher.rs and service.rs
-- Snap.antt             crates/compositor-slint/src/snap.rs
-- Resize.antt           crates/compositor-slint/src/resize.rs, with `HitZone` of cursor.rs
-- Cursor.antt           crates/compositor-slint/src/cursor.rs, the hit test
-- Notification.antt     crates/notification/src/types.rs; Notification/Hints.antt is hints.rs,
--                       Notification/History.antt history.rs and Notification/Server.antt server.rs
-- HashMap.antt          the hash maps of both, as association lists
-- F64.antt              floating-point numbers, a parameter; F64/Billionths.antt is an instance
-- Prelude.antt          shared names; Prelude/I32.antt has the wrap-around of 32-bit integers
-- Examples.antt         concrete inputs at which the theorems are applied
--
-- A method that changes its receiver is a function from the old state to the new one, in a pair
-- with the method's result where it has one. Fields and methods keep their names. `i32` arithmetic
-- wraps around, as in a release build. The `while` loop of `Spring::tick` runs on fuel: a frame
-- lasts 100 ms at most, since `tick_auto` caps it, and takes steps of 1 ms, so that 101 rounds are
-- enough. The loops of `corner_angle_offset` take up to two rounds, since `atan2` is between -pi
-- and pi; that and the laws of order that it takes are hypotheses of the theorem. Fuel is an
-- argument, and `none` is a loop that ran out of it. A window's surface is a parameter with its
-- protocol id, and D-Bus values are a parameter with the tests that the code makes on them. A
-- handler of the notification server is a function of the state behind its lock; `invoke_action`
-- takes the states of both its locks. Whether the lock is poisoned and whether a signal can be
-- emitted are arguments. A handle of smithay is a number, and what smithay tells of outputs,
-- committed states, constraints and surface trees are arguments; a handler returns the calls that
-- it makes on the seat. The walk from a popup to its root takes 16 rounds, as in the code. The loop
-- that fills the calendar takes at most 42. A frame takes as arguments what smithay and the clients
-- tell: whether a surface is alive, its least and greatest size, its screen and buffer, and the
-- time in milliseconds. What a handler sends to a client, to X11 or to a taskbar is a list of calls
-- beside the new state; smithay's X11 window is a record of the answers that the code reads. The
-- surfaces of the window manager are numbered there. A surface keeps its role, as Wayland says: it
-- is a toplevel or an X11 window for good. The tray's texts are lists of bytes, and chrono's dates
-- are a parameter.
--
-- Of the drags, the motion and the release are modelled; the press that begins one is not, nor are
-- popups, selections, the start of Xwayland and the link of a dialog to its parent.
--
-- Not modelled: rendering, Slint scenes and textures, most smithay handlers, sockets and D-Bus
-- transport, files, and the other crates. Debug logging has no counterpart. Of
-- `sync_new_toplevels` only the tests that register and close are modelled: the skip
-- of override-redirect windows, the pull of positions and the focus alignment are not.
pub mod Prelude
pub mod F64
pub mod Toplevel
pub mod Spring
pub mod Window
pub mod HashMap
pub mod Layer
pub mod Compositor
pub mod Wm
pub mod Snap
pub mod Resize
pub mod Cursor
pub mod Notification
pub mod Desktop
pub mod Tray
pub mod Typing
pub mod Calendar
pub mod Bbox
pub mod Examples
