-- ===== src/Client/Pings.antt =====
-- client/websocket.go: the channels for the pings of other sockets.
use conference_go.Common.{
  ℕ, ◌==◌, String, Bool, false, ◌&&◌, List, [], ◌∷◌, ◌++◌, Option, none, some, str_eq,
}
use conference_go.Maps.Keyed.{KeyMap, find_key, put_key, delete_key}
use conference_go.Collection.{slice_remove_by_value}
use conference_go.Proto.{PingMessage}
use conference_go.Message.{or_empty_router}
use conference_go.Client.{Client, PingKey}

abbrev pub ping_key : String → String → PingKey
ping_key sid room = record { ping_sid = sid; ping_room = room }

abbrev pub ping_key_eq : PingKey → PingKey → Bool
ping_key_eq k l = str_eq k.ping_sid l.ping_sid && str_eq k.ping_room l.ping_room

abbrev pub or_no_chs : Option (List ℕ) → List ℕ
or_no_chs none = []
or_no_chs (some chs) = chs

-- `publishPingMsgs`: the channels that get the message
unfoldable pub publish_ping_msgs : PingMessage → Client → List ℕ
unfolding find_key
publish_ping_msgs msg c =
    let r = or_empty_router msg.router in
    or_no_chs (find_key ping_key_eq (ping_key r.socket_from r.room) c.ping_chs)

-- `subscribePingMsg`, with the channel that it makes
unfoldable pub subscribe_ping_msg : String → String → ℕ → Client → Client
unfolding find_key put_key
subscribe_ping_msg room sid ch c =
    let key = ping_key sid room in
    record c {
      ping_chs =
          put_key ping_key_eq key (or_no_chs (find_key ping_key_eq key c.ping_chs) ++ ch ∷ [])
            c.ping_chs;
    }

abbrev pub with_chs : PingKey → List ℕ → KeyMap PingKey (List ℕ) → KeyMap PingKey (List ℕ)
with_chs key [] m = delete_key ping_key_eq key m
with_chs key (ch ∷ chs) m = put_key ping_key_eq key (ch ∷ chs) m

abbrev pub without_ch :
    PingKey → ℕ → Option (List ℕ) → KeyMap PingKey (List ℕ) → KeyMap PingKey (List ℕ)
without_ch key ch none m = m
without_ch key ch (some chs) m = with_chs key (slice_remove_by_value ◌==◌ chs false ch) m

-- `unsubscribePingMsg`
unfoldable pub unsubscribe_ping_msg : String → String → ℕ → Client → Client
unfolding find_key put_key delete_key slice_remove_by_value
unsubscribe_ping_msg room sid ch c =
    let key = ping_key sid room in
    record c { ping_chs = without_ch key ch (find_key ping_key_eq key c.ping_chs) c.ping_chs }
