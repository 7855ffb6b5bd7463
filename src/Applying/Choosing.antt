-- ===== src/Applying/Choosing.antt =====
-- Which of the new plugins give the objects that GuiAppMgr::applyNewPlugins
-- (app/cc_view/src/GuiAppMgr.cpp) uses.
use cc_tools_qt.Base.{
  ℕ, ◌≡◌, inl, inr, refl, sym, ap, ◌∙◌, Bool, true, false, ◌&&◌, List, [], ◌∷◌, ◌++◌, map, filter,
  append_assoc, append-nil, present, Option, none, some, if◌then◌else◌, Bool-cases, Option-cases,
  arith,
}
use cc_tools_qt.Plugin.{
  Kind, is_socket, is_filter, is_protocol, create_socket, create_filter, create_protocol,
}
use cc_tools_qt.Applying.{create_if_none, Application, ApplyInfo, apply_one, apply_each}

abbrev pub map_option : (ℕ → ℕ) → Option ℕ → Option ℕ
map_option f none = none
map_option f (some x) = some (f x)

-- What a plugin class promises: loading it fails always or never, and it overrides the function that
-- creates the object of its kind, so a new object comes from it. Every object is of one plugin.
pub record Overridden {W : Type 0} (a : Application W) : Type 0 where
  pub loads : ℕ → Bool
  pub origin : ℕ → ℕ
  pub loads_lem : (i : ℕ) (w : W) → (a.load_plugin i w).0 ≡ loads i
  pub socket :
      (i : ℕ) (w : W)
      → is_socket (a.impl.type i) ≡ true
      → map_option origin (a.impl.create_socket_impl i w).0 ≡ some i
  pub filter :
      (i : ℕ) (w : W)
      → is_filter (a.impl.type i) ≡ true
      → map_option origin (a.impl.create_filter_impl i w).0 ≡ some i
  pub protocol :
      (i : ℕ) (w : W)
      → is_protocol (a.impl.type i) ≡ true
      → map_option origin (a.impl.create_protocol_impl i w).0 ≡ some i

-- The first entry that passes.
abbrev pub first : (ℕ → Bool) → List ℕ → Option ℕ
first f [] = none
first f (i ∷ is) = if f i then some i else first f is

abbrev pub or_else : Option ℕ → Option ℕ → Option ℕ
or_else none y = y
or_else (some x) y = some x

or_else-none : (x : Option ℕ) → or_else x none ≡ x
or_else-none none = refl
or_else-none (some x) = refl

or_else_assoc : (x y z : Option ℕ) → or_else (or_else x y) z ≡ or_else x (or_else y z)
or_else_assoc none y z = refl
or_else_assoc (some x) y z = refl

module _ {W : Type 0} (a : Application W) (o : Overridden a) where
  -- A plugin that loads and is of a kind.
  abbrev pub offers : (Kind → Bool) → ℕ → Bool
  offers is_kind i = o.loads i && is_kind (a.impl.type i)

  -- The plugins that the objects come from.
  pub record From (x y : ApplyInfo) (is : List ℕ) : Type 0 where
    pub socket :
        map_option o.origin y.socket
        ≡ or_else (map_option o.origin x.socket) (first (offers is_socket) is)
    pub protocol :
        map_option o.origin y.protocol
        ≡ or_else (map_option o.origin x.protocol) (first (offers is_protocol) is)
    pub filters :
        map o.origin (present y.filters)
        ≡ map o.origin (present x.filters) ++ filter (offers is_filter) is

  socket_lem :
      (i : ℕ) (x : Option ℕ) (w : W)
      → map_option o.origin (create_if_none x (create_socket a.impl i) w).0
        ≡ or_else (map_option o.origin x) (if is_socket (a.impl.type i) then some i else none)
  unfolding create_if_none create_socket
  socket_lem i none w = ground (arith, o.socket i w)
  socket_lem i (some k) w = refl

  protocol_lem :
      (i : ℕ) (x : Option ℕ) (w : W)
      → map_option o.origin (create_if_none x (create_protocol a.impl i) w).0
        ≡ or_else (map_option o.origin x) (if is_protocol (a.impl.type i) then some i else none)
  unfolding create_if_none create_protocol
  protocol_lem i none w = ground (arith, o.protocol i w)
  protocol_lem i (some k) w = refl

  filter_lem :
      (i : ℕ) (fs : List (Option ℕ)) (w : W)
      → map o.origin (present (fs ++ (create_filter a.impl i w).0 ∷ []))
        ≡ map o.origin (present fs) ++ (if is_filter (a.impl.type i) then i ∷ [] else [])
  unfolding create_filter
  filter_lem i [] w = elim (Bool-cases (is_filter (a.impl.type i))) [
    | inl e ↦ elim (Option-cases (a.impl.create_filter_impl i w).0) [
      | inl n ↦ absurd (ground (arith, n, o.filter i w e))
      | inr (k, n) ↦ ground (arith, e, n, o.filter i w e)
    ]
    | inr e ↦ ground (arith, e)
  ]
  filter_lem i (none ∷ fs) w = filter_lem i fs w
  filter_lem i (some k ∷ fs) w = ap (◌∷◌ (o.origin k)) (filter_lem i fs w)

  apply_one-From : (i : ℕ) (x : ApplyInfo) (w : W) → From x (apply_one a i x w).0 (i ∷ [])
  unfolding apply_one
  apply_one-From i x w =
      let w1 = (a.load_plugin i w).1 in
      let w2 = (create_if_none x.socket (create_socket a.impl i) w1).1 in
      let w3 = (create_filter a.impl i w2).1 in
      elim (Bool-cases (o.loads i)) [
        | inl e ↦
            let found : (a.load_plugin i w).0 ≡ true = o.loads_lem i w ∙ e in
            record {
              socket = ground (arith, found, e, socket_lem i x.socket w1);
              protocol = ground (arith, found, e, protocol_lem i x.protocol w3);
              filters = ground (arith, found, e, filter_lem i x.filters w2);
            }
        | inr e ↦
            let missing : (a.load_plugin i w).0 ≡ false = o.loads_lem i w ∙ e in
            record {
              socket = ground (arith, missing, e, or_else-none (map_option o.origin x.socket));
              protocol = ground (arith, missing, e, or_else-none (map_option o.origin x.protocol));
              filters = ground (arith, missing, e, append-nil (map o.origin (present x.filters)));
            }
      ]

  first-cons :
      (f : ℕ → Bool) (i : ℕ) (is : List ℕ)
      → first f (i ∷ is) ≡ or_else (first f (i ∷ [])) (first f is)
  first-cons f i is = ground arith

  filter-cons :
      (f : ℕ → Bool) (i : ℕ) (is : List ℕ) → filter f (i ∷ is) ≡ filter f (i ∷ []) ++ filter f is
  filter-cons f i is = ground arith

  pub apply_each-From : (is : List ℕ) (x : ApplyInfo) (w : W) → From x (apply_each a is x w).0 is
  unfolding apply_each
  apply_each-From [] x w = record {
    socket = sym (or_else-none (map_option o.origin x.socket));
    protocol = sym (or_else-none (map_option o.origin x.protocol));
    filters = sym (append-nil (map o.origin (present x.filters)));
  }
  apply_each-From (i ∷ is) x w =
      let (x1, w1) = apply_one a i x w in
      let one = apply_one-From i x w in
      let rest = apply_each-From is x1 w1 in
      record {
        socket =
            rest.socket
            ∙ ap (λ y. or_else y (first (offers is_socket) is)) one.socket
            ∙ or_else_assoc (map_option o.origin x.socket) (first (offers is_socket) (i ∷ []))
                (first (offers is_socket) is)
            ∙ ap (λ y. or_else (map_option o.origin x.socket) y)
                (sym (first-cons (offers is_socket) i is));
        protocol =
            rest.protocol
            ∙ ap (λ y. or_else y (first (offers is_protocol) is)) one.protocol
            ∙ or_else_assoc (map_option o.origin x.protocol) (first (offers is_protocol) (i ∷ []))
                (first (offers is_protocol) is)
            ∙ ap (λ y. or_else (map_option o.origin x.protocol) y)
                (sym (first-cons (offers is_protocol) i is));
        filters =
            rest.filters
            ∙ ap (λ y. y ++ filter (offers is_filter) is) one.filters
            ∙ append_assoc (map o.origin (present x.filters)) (filter (offers is_filter) (i ∷ []))
                (filter (offers is_filter) is)
            ∙ ap (λ y. map o.origin (present x.filters) ++ y)
                (sym (filter-cons (offers is_filter) i is));
      }
