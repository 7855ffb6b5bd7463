-- ===== src/MsgMgr/Chain.antt =====
-- Data blocks on their way through the filters: the loops over `m_filters` of
-- ToolsMsgMgrImpl::sendMsgs, socketDataReceived and filterDataToSendReport
-- (lib/src/ToolsMsgMgrImpl.cpp), which differ in the filter's function and in the order only.
use cc_tools_qt.Base.{ℕ, List, [], ◌∷◌, ◌++◌}
use cc_tools_qt.Message.{DataInfo}

module _ {W : Type 0} (step : ℕ → DataInfo → W → List DataInfo × W) where
  -- for (auto& d : data) { dataTmp.append(filter->step(d)); }
  unfoldable pub round : ℕ → List DataInfo → W → List DataInfo × W
  round f [] w = ([], w)
  round f (d ∷ ds) w =
      let (out, w1) = step f d w in let (outs, w2) = round f ds w1 in (out ++ outs, w2)

  -- The loop over the filters, which stops when no data is left.
  unfoldable pub chain : List ℕ → List DataInfo → W → List DataInfo × W
  chain [] ds w = (ds, w)
  chain (f ∷ fs) [] w = ([], w)
  chain (f ∷ fs) (d ∷ ds) w = let (out, w1) = round f (d ∷ ds) w in chain fs out w1
