-- ===== src/Loopback/Coding.antt =====
-- Filters that code the bytes of a block and leave its other parts alone, in the loops over the filters
-- (lib/src/ToolsMsgMgrImpl.cpp).
use cc_tools_qt.Base.{ℕ, ◌≡◌, refl, ap, ◌∙◌, List, [], ◌∷◌, ◌++◌, reverse, arith}
use mathlib.Core.List.{reverse-cons}
use cc_tools_qt.Message.{DataInfo}
use cc_tools_qt.Plugins.{Plugins}
use cc_tools_qt.MsgMgr.Chain.{round, chain}

abbrev pub with_bytes : List ℕ → DataInfo → DataInfo
with_bytes bytes d = record d { bytes = bytes }

-- Each filter makes one block of one block, keeps no state, and undoes its own coding.
pub record ByteCodec {W : Type 0} (p : Plugins W) : Type 0 where
  pub encode : ℕ → List ℕ → List ℕ
  pub decode : ℕ → List ℕ → List ℕ
  pub sends :
      (i : ℕ) (d : DataInfo) (w : W)
      → p.filter_send i d w ≡ (with_bytes (encode i d.bytes) d ∷ [], w)
  pub receives :
      (i : ℕ) (d : DataInfo) (w : W)
      → p.filter_recv i d w ≡ (with_bytes (decode i d.bytes) d ∷ [], w)
  pub undoes : (i : ℕ) (bytes : List ℕ) → decode i (encode i bytes) ≡ bytes

-- Coding one after the other.
abbrev pub code_all : (ℕ → List ℕ → List ℕ) → List ℕ → List ℕ → List ℕ
code_all code [] bytes = bytes
code_all code (i ∷ is) bytes = code_all code is (code i bytes)

code_all-append :
    (code : ℕ → List ℕ → List ℕ) (is js bytes : List ℕ)
    → code_all code (is ++ js) bytes ≡ code_all code js (code_all code is bytes)
code_all-append code [] js bytes = refl
code_all-append code (i ∷ is) js bytes = code_all-append code is js (code i bytes)

module _ {W : Type 0} (p : Plugins W) (c : ByteCodec p) where
  open c use {encode, decode, sends, receives, undoes}

  pub code_all_undo :
      (is bytes : List ℕ) → code_all decode is (code_all encode (reverse is) bytes) ≡ bytes
  code_all_undo [] bytes = refl
  code_all_undo (i ∷ is) bytes =
      let inner = code_all encode (reverse is) bytes in
      ap (λ (l : List ℕ). code_all decode is (decode i (code_all encode l bytes)))
        (reverse-cons i is)
      ∙ ap (λ (l : List ℕ). code_all decode is (decode i l))
          (code_all-append encode (reverse is) (i ∷ []) bytes)
      ∙ ap (λ (l : List ℕ). code_all decode is l) (undoes i inner)
      ∙ code_all_undo is bytes

  pub chain-send :
      (is : List ℕ) (d : DataInfo) (w : W)
      → chain p.filter_send is (d ∷ []) w ≡ (with_bytes (code_all encode is d.bytes) d ∷ [], w)
  unfolding chain round
  chain-send [] d w = refl
  chain-send (i ∷ is) d w =
      ground (arith, sends i d w, chain-send is (with_bytes (encode i d.bytes) d) w)

  pub chain-recv :
      (is : List ℕ) (d : DataInfo) (w : W)
      → chain p.filter_recv is (d ∷ []) w ≡ (with_bytes (code_all decode is d.bytes) d ∷ [], w)
  unfolding chain round
  chain-recv [] d w = refl
  chain-recv (i ∷ is) d w =
      ground (arith, receives i d w, chain-recv is (with_bytes (decode i d.bytes) d) w)
