-- ===== src/Socket/Echo.antt =====
-- The echo socket: plugin/echo_socket/EchoSocket.cpp and EchoSocket.h. It hands back what it is
-- given, when its timer fires. It keeps blocks by value, since the message manager changes none after
-- sending it.
use cc_tools_qt.Base.{
  ℕ, Bool, true, false, List, [], ◌∷◌, ◌++◌, map, ◌≡◌, refl, sym, ap, ap₂, subst, ◌∙◌, append-nil,
  append_assoc, if◌then◌else◌, arith,
}
use cc_tools_qt.Message.{DataInfo, make_data_info}
use cc_tools_qt.Socket.{
  Signal, data_received, Socket, Impl, default_impl, signal, stamp, send_data, report_data_received,
}

pub record EchoState : Type 0 where
  pub pending_data : List DataInfo
  pub timer_active : Bool

module _ {W : Type 0} where
  -- The timer is started with no delay, unless it runs already.
  unfoldable pub echo_send : DataInfo → Socket EchoState W → DataInfo × Socket EchoState W
  echo_send d s = (
    d,
    record s {
      derived = record { pending_data = s.derived.pending_data ++ d ∷ []; timer_active = true };
    },
  )

module _ {W : Type 0} (now : W → ℕ × W) where
  abbrev pub echo : Impl EchoState W
  echo = default_impl now echo_send

  -- The body of the loop of `sendDataPostponed`, for one block.
  unfoldable pub give_back : DataInfo → Socket EchoState W → Socket EchoState W
  give_back d s =
      let (t, w) = now s.world in
      report_data_received echo
        (record make_data_info {
          bytes = d.bytes;
          extra_properties = d.extra_properties;
          timestamp = t;
        })
        (record s { world = w })

  -- The loop takes the blocks from the front; no block is added meanwhile.
  unfoldable pub give_back_all : List DataInfo → Socket EchoState W → Socket EchoState W
  give_back_all [] s = s
  give_back_all (d ∷ ds) s = give_back_all ds (give_back d s)

  unfoldable pub send_data_postponed : Socket EchoState W → Socket EchoState W
  send_data_postponed s =
      give_back_all s.derived.pending_data
        (record s { derived = record { pending_data = []; timer_active = false } })

  unfoldable pub send_all : List DataInfo → Socket EchoState W → Socket EchoState W
  send_all [] s = s
  send_all (d ∷ ds) s = send_all ds (send_data echo d s).1

-- The bytes of the blocks that a socket has reported, in order.
abbrev pub received_bytes : List Signal → List (List ℕ)
received_bytes [] = []
received_bytes (data_received d ∷ es) = d.bytes ∷ received_bytes es
received_bytes (Signal.connection_status b ∷ es) = received_bytes es
received_bytes (Signal.error_report m ∷ es) = received_bytes es
received_bytes (Signal.inter_plugin_config x ∷ es) = received_bytes es

abbrev bytes_of : DataInfo → List ℕ
bytes_of d = d.bytes

pub received_bytes-append :
    (es fs : List Signal) → received_bytes (es ++ fs) ≡ received_bytes es ++ received_bytes fs
received_bytes-append [] fs = refl
received_bytes-append (data_received d ∷ es) fs =
    ap (λ l. d.bytes ∷ l) (received_bytes-append es fs)
received_bytes-append (Signal.connection_status b ∷ es) fs = received_bytes-append es fs
received_bytes-append (Signal.error_report m ∷ es) fs = received_bytes-append es fs
received_bytes-append (Signal.inter_plugin_config x ∷ es) fs = received_bytes-append es fs

module _ {W : Type 0} (now : W → ℕ × W) where
  -- What one sending does to a connected socket.
  record Queues (ds : List DataInfo) (s s' : Socket EchoState W) : Type 0 where
    connected : s'.connected ≡ s.connected
    running : s'.running ≡ s.running
    signals : s'.signals ≡ s.signals
    pending :
        map bytes_of s'.derived.pending_data
        ≡ map bytes_of s.derived.pending_data ++ map bytes_of ds

  map-append :
      (xs ys : List DataInfo) → map bytes_of (xs ++ ys) ≡ map bytes_of xs ++ map bytes_of ys
  map-append [] ys = refl
  map-append (x ∷ xs) ys = ap (λ l. x.bytes ∷ l) (map-append xs ys)

  stamp-bytes : (d : DataInfo) (s : Socket EchoState W) → (stamp (echo now) d s).0.bytes ≡ d.bytes
  unfolding stamp
  stamp-bytes d s = ground arith

  stamp-frame :
      (d : DataInfo) (s : Socket EchoState W)
      → (stamp (echo now) d s).1 ≡ record s { world = (stamp (echo now) d s).1.world }
  unfolding stamp
  stamp-frame d s = ground arith

  send_data-Queues :
      (d : DataInfo) (s : Socket EchoState W)
      → s.connected ≡ true
      → Queues (d ∷ []) s (send_data (echo now) d s).1
  unfolding send_data echo_send
  send_data-Queues d s c =
      let frame = stamp-frame d s in
      subst
        (λ b.
          Queues (d ∷ []) s
            (if b then echo_send (stamp (echo now) d s).0 (stamp (echo now) d s).1 else (d, s)).1)
        (sym c)
        (record {
          connected = ap (λ (x : Socket EchoState W). x.connected) frame;
          running = ap (λ (x : Socket EchoState W). x.running) frame;
          signals = ap (λ (x : Socket EchoState W). x.signals) frame;
          pending =
              map-append (stamp (echo now) d s).1.derived.pending_data
                ((stamp (echo now) d s).0 ∷ [])
              ∙ ap₂
                  (λ (x : Socket EchoState W) (b : List ℕ).
                    map bytes_of x.derived.pending_data ++ b ∷ [])
                  frame (stamp-bytes d s);
        })

  send_all-Queues :
      (ds : List DataInfo) (s : Socket EchoState W)
      → s.connected ≡ true
      → Queues ds s (send_all now ds s)
  unfolding send_all
  send_all-Queues [] s c = record {
    connected = refl;
    running = refl;
    signals = refl;
    pending = sym (append-nil _);
  }
  send_all-Queues (d ∷ ds) s c =
      let one = send_data-Queues d s c in
      let rest = send_all-Queues ds (send_data (echo now) d s).1 (one.connected ∙ c) in
      record {
        connected = rest.connected ∙ one.connected;
        running = rest.running ∙ one.running;
        signals = rest.signals ∙ one.signals;
        pending =
            rest.pending
            ∙ ap (λ l. l ++ map bytes_of ds) one.pending
            ∙ append_assoc (map bytes_of s.derived.pending_data) (d.bytes ∷ []) (map bytes_of ds);
      }

  give_back-running :
      (d : DataInfo) (s : Socket EchoState W) → (give_back now d s).running ≡ s.running
  unfolding give_back report_data_received signal stamp
  give_back-running d s = ground arith

  report_data_received-bytes :
      (d : DataInfo) (s : Socket EchoState W)
      → s.running ≡ true
      → received_bytes (report_data_received (echo now) d s).signals
        ≡ received_bytes s.signals ++ d.bytes ∷ []
  unfolding report_data_received signal
  report_data_received-bytes d s r =
      let (d1, s1) = stamp (echo now) d s in
      subst
        (λ b.
          received_bytes
            (if b then record s1 { signals = s1.signals ++ data_received d1 ∷ [] } else s).signals
          ≡ received_bytes s.signals ++ d.bytes ∷ [])
        (sym r)
        (received_bytes-append s1.signals (data_received d1 ∷ [])
          ∙ ap₂ (λ (x : Socket EchoState W) (b : List ℕ). received_bytes x.signals ++ b ∷ [])
              (stamp-frame d s) (stamp-bytes d s))

  give_back-signals :
      (d : DataInfo) (s : Socket EchoState W)
      → s.running ≡ true
      → received_bytes (give_back now d s).signals ≡ received_bytes s.signals ++ d.bytes ∷ []
  unfolding give_back
  give_back-signals d s r = report_data_received-bytes _ (record s { world = (now s.world).1 }) r

  give_back_all_lem :
      (ds : List DataInfo) (s : Socket EchoState W)
      → s.running ≡ true
      → received_bytes (give_back_all now ds s).signals
        ≡ received_bytes s.signals ++ map bytes_of ds
  unfolding give_back_all
  give_back_all_lem [] s r = sym (append-nil _)
  give_back_all_lem (d ∷ ds) s r =
      give_back_all_lem ds (give_back now d s) (give_back-running d s ∙ r)
      ∙ ap (λ (l : List (List ℕ)). l ++ map bytes_of ds) (give_back-signals d s r)
      ∙ append_assoc (received_bytes s.signals) (d.bytes ∷ []) (map bytes_of ds)

  -- A connected echo socket that runs reports, when its timer fires, the bytes of the blocks that
  -- waited and then the bytes of all blocks sent to it since, in the order of sending.
  pub echoes :
      (ds : List DataInfo) (s : Socket EchoState W)
      → s.connected ≡ true
      → s.running ≡ true
      → received_bytes (send_data_postponed now (send_all now ds s)).signals
        ≡ received_bytes s.signals ++ (map bytes_of s.derived.pending_data ++ map bytes_of ds)
  unfolding send_data_postponed
  echoes ds s c r =
      let queued = send_all-Queues ds s c in
      let after = send_all now ds s in
      give_back_all_lem after.derived.pending_data
        (record after { derived = record { pending_data = []; timer_active = false } })
        (queued.running ∙ r)
      ∙ ap₂ (λ (es : List Signal) (l : List (List ℕ)). received_bytes es ++ l) queued.signals
          queued.pending
