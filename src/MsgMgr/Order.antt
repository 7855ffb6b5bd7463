-- ===== src/MsgMgr/Order.antt =====
-- The order that the message manager keeps in its list: message numbers rise along it, and stay
-- below the next number to be given.
use cc_tools_qt.Base.{
  suc, ap, ℕ, suc, ◌+◌, ◌≤◌, ◌<◌, ◌≡◌, ◌≢◌, refl, List, [], ◌∷◌, ◌++◌, some, length, All, arith,
  ne→==_false,
}
use cc_tools_qt.Message.{Message, get_from}
use cc_tools_qt.MsgMgr.Fields.{State, put, num_of, u64_mod}

-- The numbers of the messages rise strictly, from `lo` on and below `hi`.
abbrev pub Ordered : (ℕ → Message) → ℕ → List ℕ → ℕ → Type 0
Ordered o lo [] hi = lo ≤ hi
Ordered o lo (h ∷ hs) hi = (lo ≤ num_of (o h)) × Ordered o (num_of (o h) + 1) hs hi

-- The messages carry the numbers n, n + 1, n + 2 and so on.
abbrev pub Numbered : (ℕ → Message) → ℕ → List ℕ → Type 0
Numbered o n [] = Unit {0}
Numbered o n (h ∷ hs) = ((o h).msg_num ≡ some n) × Numbered o (n + 1) hs

abbrev pub NotIn : ℕ → List ℕ → Type 0
NotIn h hs = All (λ x. x ≢ h) hs

abbrev pub Distinct : List ℕ → Type 0
Distinct [] = Unit {0}
Distinct (h ∷ hs) = NotIn h hs × Distinct hs

-- No address of the first list is in the second.
abbrev pub Apart : List ℕ → List ℕ → Type 0
Apart [] ks = Unit {0}
Apart (h ∷ hs) ks = NotIn h ks × Apart hs ks

pub record Inv {W : Type 0} (s : State W) : Type 0 where
  pub ordered : Ordered s.objects 1 s.all_msgs s.next_msg_num
  pub allocated : All (λ h. h < s.next_object) s.all_msgs

-- The messages are distinct objects that are not in the list, and there are numbers left for them.
pub record CanAdd {W : Type 0} (hs : List ℕ) (s : State W) : Type 0 where
  pub distinct : Distinct hs
  pub apart : Apart hs s.all_msgs
  pub allocated : All (λ h. h < s.next_object) hs
  pub fits : s.next_msg_num + length hs < u64_mod

-- Two stores give the listed messages the same numbers.
abbrev pub SameNums : (ℕ → Message) → (ℕ → Message) → List ℕ → Type 0
SameNums o o' hs = All (λ h. num_of (o' h) ≡ num_of (o h)) hs

pub Ordered-frame :
    (o o' : ℕ → Message) (lo : ℕ) (hs : List ℕ) (hi : ℕ)
    → SameNums o o' hs
    → Ordered o lo hs hi
    → Ordered o' lo hs hi
Ordered-frame o o' lo [] hi same h = h
Ordered-frame o o' lo (x ∷ hs) hi same h =
    rw same.0 (h.0, Ordered-frame o o' (num_of (o x) + 1) hs hi same.1 h.1)

pub Ordered-le : (o : ℕ → Message) (lo : ℕ) (hs : List ℕ) (hi : ℕ) → Ordered o lo hs hi → lo ≤ hi
Ordered-le o lo [] hi h = h
Ordered-le o lo (x ∷ hs) hi h = omega (arith, Ordered-le o (num_of (o x) + 1) hs hi h.1)

pub Ordered-snoc :
    (o : ℕ → Message) (lo : ℕ) (hs : List ℕ) (n h : ℕ) {hi : ℕ}
    → Ordered o lo hs n
    → n ≤ num_of (o h)
    → num_of (o h) < hi
    → Ordered o lo (hs ++ h ∷ []) hi
Ordered-snoc o lo [] n h p q r = (omega arith, omega arith)
Ordered-snoc o lo (x ∷ hs) n h p q r = (p.0, Ordered-snoc o (num_of (o x) + 1) hs n h p.1 q r)

pub SameNums-put :
    (o : ℕ → Message) (h : ℕ) (m : Message) (hs : List ℕ) → NotIn h hs → SameNums o (put h m o) hs
SameNums-put o h m [] n = tt
SameNums-put o h m (x ∷ hs) n =
    (rw (ne→==_false h x (λ e. n.0 (omega arith))) refl, SameNums-put o h m hs n.1)

pub Apart-snoc : (hs ks : List ℕ) (k : ℕ) → Apart hs ks → NotIn k hs → Apart hs (ks ++ k ∷ [])
Apart-snoc [] ks k a n = tt
Apart-snoc (h ∷ hs) ks k a n = (NotIn-snoc ks a.0, Apart-snoc hs ks k a.1 n.1)
  where
    NotIn-snoc : (l : List ℕ) → NotIn h l → NotIn h (l ++ k ∷ [])
    NotIn-snoc [] b = (λ e. n.0 (omega arith), tt)
    NotIn-snoc (x ∷ l) b = (b.0, NotIn-snoc l b.1)

-- Messages with the next numbers go to the end of an ordered list.
pub Ordered-Numbered :
    (o : ℕ → Message) (lo : ℕ) (hs : List ℕ) (n : ℕ) (ks : List ℕ) {hi : ℕ}
    → Ordered o lo hs n
    → Numbered o n ks
    → n + length ks ≡ hi
    → Ordered o lo (hs ++ ks) hi
Ordered-Numbered o lo [] n [] v w e = omega arith
Ordered-Numbered o lo [] n (k ∷ ks) v w e =
    let num : num_of (o k) ≡ n = ap (λ a. get_from a 0) w.0 in
    (
      omega (arith, num),
      rw num (Ordered-Numbered o (n + 1) [] (n + 1) ks (omega arith) w.1 (omega arith)),
    )
Ordered-Numbered o lo (h ∷ hs) n ks v w e =
    (v.0, Ordered-Numbered o (num_of (o h) + 1) hs n ks v.1 w e)

-- A new object is none of those in the list.
pub SameNums-new :
    (o : ℕ → Message) (n : ℕ) (m : Message) (hs : List ℕ)
    → All (λ h. h < n) hs
    → SameNums o (put n m o) hs
SameNums-new o n m [] a = tt
SameNums-new o n m (h ∷ hs) a = (ground (arith, a.0), SameNums-new o n m hs a.1)

pub Allocated-suc : (n : ℕ) (hs : List ℕ) → All (λ h. h < n) hs → All (λ h. h < suc n) hs
Allocated-suc n [] a = tt
Allocated-suc n (h ∷ hs) a = (omega (arith, a.0), Allocated-suc n hs a.1)
