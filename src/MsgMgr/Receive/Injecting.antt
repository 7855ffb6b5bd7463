-- ===== src/MsgMgr/Receive/Injecting.antt =====
-- Which filters the data passes that a filter itself sends out (filterDataToSendReport,
-- lib/src/ToolsMsgMgrImpl.cpp).
use cc_tools_qt.Base.{
  ℕ, ◌-◌, ◌≡◌, refl, ap, ◌∙◌, List, [], ◌∷◌, ◌++◌, reverse, Option, none, some, length,
  length-append, take, drop, drop-reverse, arith, ==_refl,
}
use cc_tools_qt.Message.{DataInfo}
use cc_tools_qt.Plugins.{Plugins}
use cc_tools_qt.MsgMgr.Fields.{State}
use cc_tools_qt.MsgMgr.Chain.{chain}
use cc_tools_qt.MsgMgr.Order.{NotIn}
use cc_tools_qt.MsgMgr.Receive.{index_of, send_blocks, filter_data_to_send}

index_of-append :
    (f : ℕ) (before after : List ℕ)
    → NotIn f before
    → index_of f (before ++ f ∷ after) ≡ some (length before)
unfolding index_of
index_of-append f [] after n = ground (arith, ==_refl f)
index_of-append f (x ∷ before) after n = ground (arith, n.0, index_of-append f before after n.1)

index_of-NotIn : (f : ℕ) (fs : List ℕ) → NotIn f fs → index_of f fs ≡ none
unfolding index_of
index_of-NotIn f [] n = refl
index_of-NotIn f (x ∷ fs) n = ground (arith, n.0, index_of-NotIn f fs n.1)

take-append : (before after : List ℕ) → take (length before) (before ++ after) ≡ before
take-append [] after = refl
take-append (x ∷ before) after = ap (◌∷◌ x) (take-append before after)

-- `rbegin() + revIdx` starts at the filter before the sender.
earlier_filters :
    (f : ℕ) (before after : List ℕ)
    → drop (length (before ++ f ∷ after) - length before) (reverse (before ++ f ∷ after))
      ≡ reverse before
earlier_filters f before after =
    drop-reverse (length before) (before ++ f ∷ after)
      (omega (arith, length-append before (f ∷ after)))
    ∙ ap reverse (take-append before (f ∷ after))

module _ {W : Type 0} (p : Plugins W) where
  -- Data that a filter sends passes the filters before it, the nearest first, and then goes to the
  -- socket; neither the sender nor the filters behind it see it.
  pub filter_data_to_send_earlier :
      (k f : ℕ) (before after : List ℕ) (d : DataInfo) (s : State W)
      → s.filters ≡ before ++ f ∷ after
      → NotIn f before
      → s.socket ≡ some k
      → filter_data_to_send p f (some d) s ≡ record s {
        world =
            let (ds, w) = chain p.filter_send (reverse before) (d ∷ []) s.world in
            send_blocks p k ds w;
      }
  unfolding filter_data_to_send
  filter_data_to_send_earlier k f before after d s ef n ek =
      ground (arith, index_of-append f before after n, earlier_filters f before after)

  -- Data from an object that is no filter of the manager is ignored.
  pub filter_data_to_send_unknown :
      (f : ℕ) (data_info : Option DataInfo) (s : State W)
      → NotIn f s.filters
      → filter_data_to_send p f data_info s ≡ s
  unfolding filter_data_to_send
  filter_data_to_send_unknown f none s n = refl
  filter_data_to_send_unknown f (some d) s n = ground (arith, index_of-NotIn f s.filters n)
