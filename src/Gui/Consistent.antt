-- ===== src/Gui/Consistent.antt =====
-- The window's invariant: its counters are those of the rows of its lists, and its selection is what
-- the lists show.
pub mod Recv
pub mod Refresh
pub mod Slots
pub mod Delete
pub mod Send
pub mod Removal
pub mod Moves
pub mod Loading
use cc_tools_qt.Base.{
  ℕ, ◌+◌, ◌-◌, ◌%◌, ◌<◌, ◌≡◌, ◌≢◌, refl, sym, ap, ◌∙◌, Bool, true, false, Option, none, some,
  length, arith,
}
use cc_tools_qt.Gui.{Window, u32_mod}
use cc_tools_qt.Gui.Selection.{Selected, SameLists}

pub record Consistent {W : Type 0} (s : Window W) : Type 0 where
  pub selected : Selected s
  pub recv_count : s.recv_list_count ≡ length s.recv_list.rows % u32_mod
  pub send_count : s.send_list_count ≡ length s.send_list.rows % u32_mod
  pub send_follows : s.send_list.select_on_add ≡ true

-- The invariant without the selection, which some operations set right at their end.
pub record Counted {W : Type 0} (s : Window W) : Type 0 where
  pub recv_count : s.recv_list_count ≡ length s.recv_list.rows % u32_mod
  pub send_count : s.send_list_count ≡ length s.send_list.rows % u32_mod
  pub send_follows : s.send_list.select_on_add ≡ true

pub Consistent→Counted : {W : Type 0} (s : Window W) → Consistent s → Counted s
Consistent→Counted s c = record {
  recv_count = c.recv_count;
  send_count = c.send_count;
  send_follows = c.send_follows;
}

pub Counted-Consistent :
    {W : Type 0} (s t : Window W) → SameLists s t → Selected t → Counted s → Consistent t
Counted-Consistent s t same sel c = record {
  selected = sel;
  recv_count = same.recv_count ∙ c.recv_count ∙ ap (λ l. length l % u32_mod) (sym same.recv_rows);
  send_count = same.send_count ∙ c.send_count ∙ ap (λ l. length l % u32_mod) (sym same.send_rows);
  send_follows = same.send_follows ∙ c.send_follows;
}

pub SameLists-Consistent :
    {W : Type 0} (s t : Window W) → SameLists s t → Selected t → Consistent s → Consistent t
SameLists-Consistent s t same sel c = Counted-Consistent s t same sel (Consistent→Counted s c)
