-- ===== src/SendMgr/Clones.antt =====
-- The loop of sendPendingAndWait over the due messages, and what it sends in place of them
-- (lib/src/ToolsMsgSendMgrImpl.cpp).
use cc_tools_qt.Base.{
  suc, ℕ, ◌≡◌, refl, ap, List, [], ◌∷◌, Option, some, if◌then◌else◌, is_empty, length, arith,
  Bool-cases, inl, inr,
}
use cc_tools_qt.Message.{Message, get_from}
use cc_tools_qt.Plugins.{Plugins}
use cc_tools_qt.SendMgr.{
  repeat_of, reinserts, insert_repeat, count_down, with_extra_info, resend, resend_all,
}
use cc_tools_qt.SendMgr.Agenda.{resend_queue}

-- The protocol can clone every message.
pub record CanClone {W : Type 0} (p : Plugins W) : Type 0 where
  pub copy : ℕ → Message → W → Message
  pub copies : (r : ℕ) (m : Message) (w : W) → (p.protocol_clone r m w).0 ≡ some (copy r m w)

-- What is sent for a message: itself, or a clone of it, which the protocol has updated when the
-- message has extra information.
pub data SentFor {W : Type 0} (p : Plugins W) (c : CanClone p) (m : Message)
    : Option Message → Type 0 where
  itself : SentFor p c m (some m)
  cloned : (r : ℕ) (w : W) → SentFor p c m (some (c.copy r m w))
  updated :
      (r : ℕ) (v w : W)
      → SentFor p c m
          (some (p.protocol_update r (record (c.copy r m v) { extra_info = m.extra_info }) w).0)

-- One entry is sent for each message, in the order of the messages.
pub data SentAll {W : Type 0} (p : Plugins W) (c : CanClone p)
    : List Message → List (Option Message) → Type 0 where
  nothing : SentAll p c [] []
  one :
      {m : Message} {x : Option Message} {ms : List Message} {xs : List (Option Message)}
      → SentFor p c m x
      → SentAll p c ms xs
      → SentAll p c (m ∷ ms) (x ∷ xs)

module _ {W : Type 0} (p : Plugins W) (c : CanClone p) where
  open c use {copy, copies}

  with_extra_info-some :
      (r : ℕ) (m : Message) (v w : W)
      → (x : Message) × (w' : W) × (with_extra_info p r m (some (copy r m v)) w ≡ some (some x, w'))
        × SentFor p c m (some x)
  unfolding with_extra_info
  with_extra_info-some r m v w = elim (Bool-cases (is_empty (get_from m.extra_info []))) [
    | inl e ↦ (copy r m v, w, ground arith, SentFor.cloned r v)
    | inr e ↦
        let (x, w') = p.protocol_update r (record (copy r m v) { extra_info = m.extra_info }) w in
        (x, w', ground arith, SentFor.updated r v w)
  ]

  resend-some :
      (r : ℕ) (m : Message) (q : List Message) (w : W)
      → (x : Message) × (w' : W) × (resend p (some r) m q w
          ≡ some
              (some x, if reinserts m then insert_repeat (repeat_of m) (count_down m) q else q, w'))
        × SentFor p c m (some x)
  unfolding resend
  resend-some r m q w = elim (Bool-cases (reinserts m)) [
    | inl e ↦
        let (x, w', e', f) = with_extra_info-some r m w (p.protocol_clone r m w).1 in
        (x, w', ground (arith, copies r m w), f)
    | inr e ↦ (m, w, ground arith, SentFor.itself)
  ]

  -- The loop over the due messages sends an entry for each, and queues those that repeat.
  pub resend_all-some :
      (r : ℕ) (ms q : List Message) (w : W)
      → (cs : List (Option Message)) × (w' : W) × (resend_all p (some r) ms q w
          ≡ some (cs, resend_queue ms q, w'))
        × (length cs ≡ length ms)
        × SentAll p c ms cs
  unfolding resend_all resend_queue
  resend_all-some r [] q w = ([], w, refl, refl, SentAll.nothing)
  resend_all-some r (m ∷ ms) q w =
      let q1 = if reinserts m then insert_repeat (repeat_of m) (count_down m) q else q in
      let (x, w1, e1, f) = resend-some r m q w in
      let (cs, w2, e2, n, fs) = resend_all-some r ms q1 w1 in
      (some x ∷ cs, w2, ground (arith, e1, e2), ap suc n, SentAll.one f fs)
