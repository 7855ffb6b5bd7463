-- ===== src/MsgMgr/Delete.antt =====
-- deleteMsg, deleteMsgs and deleteAllMsgs (lib/src/ToolsMsgMgrImpl.cpp, ToolsMsgMgrImpl.h).
pub mod Exact
use cc_tools_qt.Base.{ℕ, true, false, List, [], ◌∷◌, ◌++◌, ◌==◌, if◌then◌else◌}
use cc_tools_qt.Message.{Message}
use cc_tools_qt.MsgMgr.Fields.{State, num_of}

-- `erase(find_if(...))`: the first entry with the number goes; without one nothing does.
erase_num : (ℕ → Message) → ℕ → List ℕ → List ℕ
erase_num objects n [] = []
erase_num objects n (h ∷ hs) = if num_of (objects h) == n then hs else h ∷ erase_num objects n hs

-- The loop of `deleteMsgs`. `kept` is the part of `m_allMsgs` before `prevStoredIter`, `run` the part
-- from there up to `storedIter`, and the last argument the part from `storedIter` on.
delete_loop : (ℕ → Message) → List ℕ → List ℕ → List ℕ → List ℕ → List ℕ
delete_loop objects [] kept run rest = kept ++ rest
delete_loop objects (m ∷ ms) kept run [] = kept
delete_loop objects (m ∷ ms) kept run (x ∷ xs) = elim (num_of (objects x) == num_of (objects m)) [
  | true ↦ delete_loop objects ms kept (run ++ x ∷ []) xs
  | false ↦ delete_loop objects (m ∷ ms) (kept ++ x ∷ []) [] xs
]

module _ {W : Type 0} where
  pub delete_msg : ℕ → State W → State W
  delete_msg h s = record s { all_msgs = erase_num s.objects (num_of (s.objects h)) s.all_msgs }

  pub delete_msgs : List ℕ → State W → State W
  delete_msgs msgs s = record s { all_msgs = delete_loop s.objects msgs [] [] s.all_msgs }

  unfoldable pub delete_all_msgs : State W → State W
  delete_all_msgs s = record s { all_msgs = [] }
