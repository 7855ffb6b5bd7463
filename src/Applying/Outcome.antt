-- ===== src/Applying/Outcome.antt =====
-- Which plugins are in use after GuiAppMgr::applyNewPlugins (app/cc_view/src/GuiAppMgr.cpp).
use cc_tools_qt.Base.{
  ℕ, ◌≡◌, inl, inr, refl, sym, ap, ◌∙◌, subst, Bool, true, false, ◌&&◌, List, [], ◌∷◌, ◌++◌, map,
  filter, append_assoc, append-nil, present, Option, none, some, if_keeps, if◌then◌else◌,
  Option-cases, arith,
}
use cc_tools_qt.MsgMgr.Fields.{State}
use cc_tools_qt.MsgMgr.Control.{start, set_socket, set_protocol, add_filter}
use cc_tools_qt.Plugin.{is_socket, is_filter, is_protocol}
use cc_tools_qt.PluginMgr.{has_applied_plugins, set_applied_plugins}
use cc_tools_qt.Gui.{Window}
use cc_tools_qt.Applying.{
  conclude, plug, announce, connect_socket, auto_connect, Application, App, ApplyInfo, on_window,
  set_world, world_of, add_filters, retire, apply_each, install, apply_new_plugins,
}
use cc_tools_qt.Applying.Frames.{announce-same, SamePlugins, Unplugged, connect_socket-same}
use cc_tools_qt.Applying.Choosing.{map_option, Overridden, first, offers, apply_each-From}
use cc_tools_qt.Applying.Retiring.{Tidy, retire-Unplugged}

module _ {W : Type 0} (a : Application W) where
  add_filters_lem :
      (fs : List (Option ℕ)) (m : State W)
      → ((add_filters fs m).filters ≡ m.filters ++ present fs)
        × ((add_filters fs m).socket ≡ m.socket)
  unfolding add_filters add_filter
  add_filters_lem [] m = (sym (append-nil m.filters), refl)
  add_filters_lem (none ∷ fs) m = add_filters_lem fs m
  add_filters_lem (some f ∷ fs) m =
      let (filters, socket) = add_filters_lem fs (add_filter (some f) m) in
      (filters ∙ append_assoc m.filters (f ∷ []) (present fs), socket)

  -- The plugins in use after `install`.
  record Installed (k r : ℕ) (fs : List (Option ℕ)) (m : State W) : Type 0 where
    socket : m.socket ≡ some k
    protocol : m.protocol ≡ some r
    filters : m.filters ≡ present fs
    running : m.running ≡ true

  SamePlugins-Installed :
      (k r : ℕ) (fs : List (Option ℕ)) (m n : State W)
      → SamePlugins m n
      → Installed k r fs m
      → Installed k r fs n
  SamePlugins-Installed k r fs m n same i = record {
    socket = same.socket ∙ i.socket;
    protocol = same.protocol ∙ i.protocol;
    filters = same.filters ∙ i.filters;
    running = same.running ∙ i.running;
  }

  plug-Installed :
      (k r : ℕ) (fs : List (Option ℕ)) (m : State W)
      → Unplugged m
      → Installed k r fs (plug a k r fs m)
  unfolding plug start set_socket set_protocol
  plug-Installed k r fs m u =
      let (filters, socket) = add_filters_lem fs (set_socket (some k) m) in
      record {
        socket = ground (arith, socket);
        protocol = ground arith;
        filters = ground (arith, filters, u.filters);
        running = ground arith;
      }

  install-Installed :
      (infos : List ℕ) (k r : ℕ) (x : ApplyInfo) (s : App W)
      → Unplugged s.window.msg_mgr
      → Installed k r x.filters (install a infos k r x s).window.msg_mgr
  unfolding install
  install-Installed infos k r x s u =
      let props = a.connection_properties k (world_of s) in
      let m = plug a k r x.filters s.window.msg_mgr in
      let s1 = announce a props x.actions (record s.window { msg_mgr = m }) in
      let same = (announce-same a props x.actions (record s.window { msg_mgr = m })).1 in
      let i =
        SamePlugins-Installed k r x.filters m s1.msg_mgr same
          (plug-Installed k r x.filters s.window.msg_mgr u) in
      if_keeps (λ (t : Window W). Installed k r x.filters t.msg_mgr) (auto_connect props)
        (connect_socket a k s1) s1
        (SamePlugins-Installed k r x.filters s1.msg_mgr _ (connect_socket-same a k s1).1 i) i

abbrev pub is_some : Option ℕ → Bool
is_some none = false
is_some (some x) = true

module _ {W : Type 0} (a : Application W) (o : Overridden a) where
  -- Whether the plugins of a list can be applied.
  abbrev pub can_apply : List ℕ → Bool
  can_apply infos =
      is_some (first (offers a o is_socket) infos) && is_some (first (offers a o is_protocol) infos)

  -- What is in use after applying: with `ok` the first of the plugins for each of the two that are
  -- needed, and all filters, in their order; otherwise nothing.
  pub record InUse (infos : List ℕ) (ok : Bool) (s t : App W) : Type 0 where
    pub running : t.window.msg_mgr.running ≡ ok
    pub socket :
        map_option o.origin t.window.msg_mgr.socket
        ≡ (if ok then first (offers a o is_socket) infos else none)
    pub protocol :
        map_option o.origin t.window.msg_mgr.protocol
        ≡ (if ok then first (offers a o is_protocol) infos else none)
    pub filters :
        map o.origin t.window.msg_mgr.filters
        ≡ (if ok then filter (offers a o is_filter) infos else [])
    pub applied :
        t.plugin_mgr.applied_plugins
        ≡ (if ok then infos else (retire a infos s).plugin_mgr.applied_plugins)

  abbrev Applied : List ℕ → App W → Bool × App W → Type 0
  Applied infos s r = (r.0 ≡ can_apply infos) × InUse infos (can_apply infos) s r.1 × Tidy r.1

  rejected :
      (infos : List ℕ) (w : W) (s : App W)
      → Tidy s
      → can_apply infos ≡ false
      → Applied infos s (false, on_window (set_world w) (retire a infos s))
  rejected infos w s t no_more =
      let u = retire-Unplugged a infos s t in
      let plain : InUse infos false s (on_window (set_world w) (retire a infos s)) = record {
        running = u.running;
        socket = ap (λ x. map_option o.origin x) u.socket;
        protocol = ap (λ x. map_option o.origin x) u.protocol;
        filters = ap (λ x. map o.origin x) u.filters;
        applied = refl;
      } in
      (
        sym no_more,
        subst (λ ok. InUse infos ok s (on_window (set_world w) (retire a infos s))) (sym no_more)
            plain,
        inr (ground (arith, u)),
      )

  first-nonempty :
      (f : ℕ → Bool) (i : ℕ) (infos : List ℕ) (s : App W)
      → first f infos ≡ some i
      → has_applied_plugins (set_applied_plugins infos s.plugin_mgr) ≡ true
  unfolding has_applied_plugins set_applied_plugins
  first-nonempty f i [] s e = absurd (ground (arith, e))
  first-nonempty f i (x ∷ infos) s e = refl

  accepted :
      (infos : List ℕ) (k r : ℕ) (x : ApplyInfo) (s s2 : App W)
      → Unplugged s2.window.msg_mgr
      → map_option o.origin (some k) ≡ first (offers a o is_socket) infos
      → map_option o.origin (some r) ≡ first (offers a o is_protocol) infos
      → map o.origin (present x.filters) ≡ filter (offers a o is_filter) infos
      → Applied infos s (true, install a infos k r x s2)
  accepted infos k r x s s2 u socket protocol filters =
      let i = install-Installed a infos k r x s2 u in
      let yes_it_can : can_apply infos ≡ true = ground (arith, sym socket, sym protocol) in
      let all : InUse infos true s (install a infos k r x s2) = record {
        running = i.running;
        socket = ap (λ y. map_option o.origin y) i.socket ∙ socket;
        protocol = ap (λ y. map_option o.origin y) i.protocol ∙ protocol;
        filters = ap (λ y. map o.origin y) i.filters ∙ filters;
        applied = unfold install set_applied_plugins in refl;
      } in
      (
        sym yes_it_can,
        subst (λ ok. InUse infos ok s (install a infos k r x s2)) (sym yes_it_can) all,
        inl (
            unfold install in
            first-nonempty (offers a o is_socket) (o.origin k) infos s2 (sym socket)),
      )

  -- Applying succeeds just when a plugin of the list gives a socket and one a protocol. Then the
  -- message manager runs with the socket and the protocol of the first such plugins and with all
  -- filters, in the order of the list, which is remembered as applied. Otherwise it is stopped and has
  -- no plugin. This holds when every plugin class overrides the function for its kind, and from a
  -- state where without applied plugins none is in use, which is so again afterwards.
  pub apply_new_plugins_lem :
      (infos : List ℕ) (s : App W)
      → Tidy s
      → (let (ok, t) = apply_new_plugins a infos s in
          (ok ≡ can_apply infos) × InUse infos (can_apply infos) s t × Tidy t)
  unfolding apply_new_plugins conclude
  apply_new_plugins_lem infos s t =
      let s1 = retire a infos s in
      let start : ApplyInfo = record {
        socket = none;
        filters = [];
        protocol = none;
        actions = [];
      } in
      let (x, w) = apply_each a infos start (world_of s1) in
      let s2 = on_window (set_world w) s1 in
      let from = apply_each-From a o infos start (world_of s1) in
      let P = λ (r : Bool × App W). Applied infos s r in
      let u : Unplugged s2.window.msg_mgr = ground (arith, retire-Unplugged a infos s t) in
      elim (Option-cases x.socket) [
        | inl e ↦
            let eq : conclude a infos x s2 ≡ (false, s2) = ground (arith, e) in
            subst P (sym eq) (rejected infos w s t (ground (arith, e, from.socket)))
        | inr (k, e) ↦ elim (Option-cases x.protocol) [
          | inl f ↦
              let eq : conclude a infos x s2 ≡ (false, s2) = ground (arith, e, f) in
              subst P (sym eq)
                (rejected infos w s t (ground (arith, e, f, from.socket, from.protocol)))
          | inr (r, f) ↦
              let eq : conclude a infos x s2 ≡ (true, install a infos k r x s2) =
                ground (arith, e, f) in
              subst P (sym eq) (
                accepted infos k r x s s2 u (ap (λ y. map_option o.origin y) (sym e) ∙ from.socket)
                  (ap (λ y. map_option o.origin y) (sym f) ∙ from.protocol) from.filters)
        ]
      ]
