-- ===== src/Flush/Framed.antt =====
-- The whole frame of a view.
use gocui.View.{View}
