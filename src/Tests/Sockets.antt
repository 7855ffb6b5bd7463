-- ===== src/Tests/Sockets.antt =====
-- The theorems on sockets at concrete inputs.
use cc_tools_qt.Base.{ℕ, ◌+◌, ◌≡◌, refl, true, false, [], ◌∷◌}
use cc_tools_qt.Socket.{Socket}
use cc_tools_qt.Socket.Announcing.{
  KeepsStatus, Announced, call_all, call_all-Announced, starts, connects, sends, loses_connection,
  stops,
}
use cc_tools_qt.Socket.Echo.{
  EchoState, echo, echo_send, send_data_postponed, send_all, received_bytes, echoes,
}
use cc_tools_qt.Tests.Samples.{block}

abbrev count_time : ℕ → ℕ × ℕ
count_time w = (w + 5, w + 1)

abbrev echo_off : Socket EchoState ℕ
echo_off = record {
  running = false;
  connected = false;
  derived = record { pending_data = []; timer_active = false };
  world = 0;
  signals = [];
}

abbrev echo_on : Socket EchoState ℕ
echo_on = record echo_off { running = true; connected = true }

echo-KeepsStatus : KeepsStatus (echo count_time)
unfolding echo_send
echo-KeepsStatus = record {
  starting = λ s a. a;
  stopping = λ s a. a;
  sending = λ d s a. a;
  configuring = λ x s a. a;
}

call_all-Announced_example : Announced (
    call_all
      (echo count_time)
      (starts ∷ connects ∷ sends block ∷ loses_connection ∷ connects ∷ stops ∷ [])
      echo_off)
call_all-Announced_example =
    call_all-Announced (echo count_time) echo-KeepsStatus
      (starts ∷ connects ∷ sends block ∷ loses_connection ∷ connects ∷ stops ∷ []) echo_off refl

echoes_example :
    received_bytes
      (send_data_postponed count_time
        (send_all count_time (block ∷ record block { bytes = 9 ∷ [] } ∷ []) echo_on)).signals
    ≡ (1 ∷ 2 ∷ []) ∷ (9 ∷ []) ∷ []
echoes_example = echoes count_time (block ∷ record block { bytes = 9 ∷ [] } ∷ []) echo_on refl refl
