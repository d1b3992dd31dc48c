-- ===== src/Lib.antt =====
-- A model of gocui, the library for terminal user interfaces made of views, and what holds of it.
--
-- A view (`View` in view.go) keeps a buffer of cells. edit.go changes the buffer and moves the
-- cursor, escape.go turns terminal escape sequences in written text into colours, and view.go shows
-- the lines, wrapped or not. The Gui (gui.go) keeps the views and gives them the key presses.
--
-- Files:
--   Slice       Go slices with the capacity behind them; `extend` is the loop of makeWriteable
--   Cell        `cell` and `lineType` of view.go
--   Buffer      makeWriteable and writeCells (view.go), writeRune, deleteRune, mergeLines and
--               breakLine (edit.go), on the slice of lines; Buffer/Spec has the same on plain lists
--   Attribute   the style bits, Get256Color and getTcellColor (attribute.go), OutputMode (gui.go)
--   Tcell       what is used of github.com/gdamore/tcell/v2: the colours and the key codes
--   Escape      escapeInterpreter: parseOne, outputNormal, output256, outputTrue (escape.go)
--   View        `View`, newView and the setters of its positions (view.go)
--   Wrap        takeLine, viewLines, lineWidth and linesPosOnScreen (view.go)
--   Cursor      MoveCursor (edit.go); Cursor/Set is about SetCursor (view.go)
--   Edit        the methods Edit… and simpleEditor (edit.go)
--   Write       WriteRunes, writeRunes, parseInput, Rewind and Clear (view.go)
--   Draw        draw and setRune, SetLine and SetHighlight (view.go)
--   Gui         the views of a Gui in drawing order: SetView, SetViewOnTop, … (gui.go)
--   Keybinding  the key bindings and the blacklist, and execKeybindings (keybinding.go, gui.go); its
--               children have the constants, the table `translate`, and Parse
--   Read        Read (view.go)
--   Strings     BufferLines, Buffer, ViewBuffer, Line, Word and others (view.go)
--   Frame       SetRune, drawFrameEdges, drawFrameCorners, drawTitle, drawSubtitle (gui.go)
--   App         the state of a Gui, and the code of the application as a parameter, `Client`
--   Flush       flush, clear, draw (gui.go) and clearRunes (view.go), as calls of the screen
--   Driver      pollEvent and getTcellStyle (tcell_driver.go)
--   Loop        handleEvent and onKey (gui.go); Loop/Steps has MainLoop, consumeevents and the
--               goroutines that send events as a step relation on the two channels
--   Tests       runs on small inputs
--
-- Go's `int` is ℤ without a bound: no position comes near 2^63. A rune and an Attribute are natural
-- numbers; the int32 conversions of colours wrap around. A call is an `Outcome`: it returns, panics
-- (an index out of range, a division by zero), or uses up the rounds that a loop is granted.
-- makeWriteable gets y + 1 rounds for the lines and x for the cells, which is enough at any point. A
-- line is wrapped in as many rounds as it has cells and one more, which is enough when every cell
-- fits into the view. The loops to the start of a line get a round for each column in front of the
-- cursor, the one to its end two more than the line has cells.
--
-- The main loop is bounded by four steps for each event in a channel and three for a round.
--
-- Parameters: the room that the runtime's `append` leaves behind a slice it allocates (`Growth`), the
-- constants and functions of tcell, its styles (`Styles`), the width of a rune
-- (`runewidth.RuneWidth`), and the code of the application: layouts, handlers, user events, editors.
--
-- Not modelled: the lock of a view; arrays that two lines share (mergeLines leaves the array of the
-- last line behind the end of the slice of lines, where makeWriteable may find it); letters outside
-- of ASCII in the names of keys; starting and stopping the terminal, the loader's clock, and the
-- simulated screen of testing.go. A pointer to a view is a number in the heap of all views that were
-- made. What a function of `Client` does to the state while another one runs is up to it.
pub mod App
pub mod Attribute
pub mod Buffer
pub mod Cell
pub mod Common
pub mod Cursor
pub mod Draw
pub mod Driver
pub mod Edit
pub mod Escape
pub mod Flush
pub mod Frame
pub mod Gui
pub mod Keybinding
pub mod Loop
pub mod Read
pub mod Slice
pub mod Strings
pub mod Tcell
pub mod Tests
pub mod View
pub mod Wrap
pub mod Write
