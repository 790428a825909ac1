-- ===== src/Server/Group/Joined.antt =====
-- What an attempt to join the multicast group leaves.
use maruswap.Base.{ℕ, ◌≡◌, ◌≢◌, ◌⊎◌, Bool, true, false, ◌∷◌}
use maruswap.Base.Run.{Run, ok, Cmd}
use maruswap.Server.State.{Call, History, Verbs}
use maruswap.Server.Connect.{Conn, event_multicast_join}

module _ (v : Verbs) where
  -- Joined: the last event of the channel is the join, whose address handle is kept. Or shut: the
  -- last two calls destroyed the id and the channel, to which `mcm` still points.
  pub data Done (c : ℕ) (t : Conn) : Bool → Type 0 where
    joined :
        (log : History)
        → t.ah ≡ v.answer log (Call.create_ah t.multicast)
        → v.event log ≡ event_multicast_join
        → t.log ≡ Call.ack_cm_event ∷ Call.create_ah t.multicast ∷ log
        → Done c t true
    shut :
        (log : History)
        → t.log ≡ Call.destroy_event_channel c ∷ Call.destroy_id t.multicast ∷ log
        → Done c t false

  -- It returned, kept channel and id, and is done in one of these ways.
  pub record Finishes (c id : ℕ) (run : Run Conn Bool) : Type 0 where
    pub result : Bool
    pub after : Conn
    pub returned : run ≡ ok result after
    pub channel : after.multicast_event_channel ≡ c
    pub kept : after.multicast ≡ id
    pub done : Done c after result

  abbrev Ends : (c id : ℕ) → Cmd Conn Bool → Type 0
  Ends c id m = (s : Conn) → s.multicast_event_channel ≡ c → s.multicast ≡ id → Finishes c id (m s)

  -- the channel and the id that an attempt makes
  abbrev pub channel_of : Conn → ℕ
  channel_of s = v.answer s.log Call.create_event_channel

  -- Either no channel could be made, and there is none; or the attempt is done.
  abbrev pub Outcome : (s t : Conn) → Bool → Type 0
  Outcome s t r =
      ((channel_of s ≡ 0) × (r ≡ false)) ⊎ ((channel_of s ≢ 0) × Done (channel_of s) t r)
