-- ===== src/Gui/ToolBars/Cases.antt =====
-- Splitting on an option and on the selection (app/cc_view/src/GuiAppMgr.h), as `if_cases` does on a
-- test.
use cc_tools_qt.Base.{ℕ, ◌≡◌, refl, Option, none, some, ◌⊎◌, inl, inr}
use cc_tools_qt.Gui.{SelectionType, SendState}

pub SelectionType-cases :
    (t : SelectionType)
    → (t ≡ SelectionType.unselected) ⊎ ((t ≡ SelectionType.recv) ⊎ (t ≡ SelectionType.send))
SelectionType-cases SelectionType.unselected = inl refl
SelectionType-cases SelectionType.recv = inr (inl refl)
SelectionType-cases SelectionType.send = inr (inr refl)

pub option_cases {ℓ κ} :
    {A : Type ℓ} (P : A → Type κ) (o : Option ℕ) (x : A) (f : ℕ → A)
    → (o ≡ none → P x)
    → ((m : ℕ) → o ≡ some m → P (f m))
    → P (elim o [ none ↦ x | some m ↦ f m ])
option_cases P none x f h k = h refl
option_cases P (some m) x f h k = k m refl

pub selection_cases {ℓ κ} :
    {A : Type ℓ} (P : A → Type κ) (t : SelectionType) (x y z : A)
    → P x
    → P y
    → P z
    → P (elim t [ SelectionType.recv ↦ x | SelectionType.unselected ↦ y | SelectionType.send ↦ z ])
selection_cases P SelectionType.recv x y z h k l = h
selection_cases P SelectionType.unselected x y z h k l = k
selection_cases P SelectionType.send x y z h k l = l

pub send_state_cases {ℓ κ} :
    {A : Type ℓ} (P : A → Type κ) (t : SendState) (x y z : A)
    → P x
    → P y
    → P z
    → P (elim t [ SendState.idle ↦ x | SendState.sending_single ↦ y | SendState.sending_all ↦ z ])
send_state_cases P SendState.idle x y z h k l = h
send_state_cases P SendState.sending_single x y z h k l = k
send_state_cases P SendState.sending_all x y z h k l = l
