-- ===== src/Samples/Signals.antt =====
-- signal/model.go: requests of a client and the end of a session, on small inputs.
use Prim.Native.String.{[], ◌∷◌}
use conference_go.Common.{
  ℕ, zero, suc, ◌+◌, false, String, List, [] as nil, ◌∷◌ as ◌∷ᴸ◌, none, some, ◌≡◌, ◌≢◌, ◌↔◌, refl,
  ap, ok, get_elem?,
}
use conference_go.Maps.{lookup}
use conference_go.Room.{split, check_room}
use conference_go.Room.Matches.{Matches}
use conference_go.Proto.{Router}
use conference_go.Message.{RoomMessage, get_router}
use conference_go.Messager.{Boxes, Topic, Messager, consume}
use conference_go.Messager.Registry.{handler_at}
use conference_go.Messager.Delivery.{Runs, IsFor}
use conference_go.Messager.Session.{IsNamed}
use conference_go.Protocol.{TrackToPublish}
use conference_go.Publisher.{Publication, new_track}
use conference_go.Signaling.{Session, done, publish}
use conference_go.Signaling.Reactions.{self_close}
use conference_go.Signaling.Silence.{self_close-consume}
use conference_go.Signaling.Requests.{AreFresh, publish_add_lem}
use conference_go.Samples.Sessions.{one_node, room_patterns, are_accepted}
use conference_go.Samples.Protocol.{publish_camera, publish_camera_runs}
use conference_go.Samples.Nodes.{here}

-- Texts of growing length stand for the UUIDs.
abbrev uuid : ℕ → String
uuid zero = []
uuid (suc n) = "a" ∷ uuid n

abbrev tail : String → String
tail [] = []
tail (c ∷ s) = s

uuid-AreFresh : AreFresh uuid
uuid-AreFresh zero zero e = refl
uuid-AreFresh zero (suc j) e = cc
uuid-AreFresh (suc i) zero e = cc
uuid-AreFresh (suc i) (suc j) e = ap suc (uuid-AreFresh i j (ap tail e))

-- The first UUID is taken.
abbrev kept : Publication
kept = record { id = ""; is_closed = false; tracks = nil }

abbrev session : Session
session = record {
  ctx = record {
    id = "s";
    node_name = "n1";
    uid = "u";
    uname = "user";
    room_patterns = room_patterns;
    rooms = nil;
  };
  router = here;
  subscriptions = nil;
  publications = ("", kept) ∷ᴸ nil;
  drawn = 0;
  sdp_msg_id = 0;
}

publish_add_lem_example :
    (i : ℕ) × (s' : Session) × (p : Publication) × (publish uuid publish_camera session
      ≡ ok (s', done (uuid i)))
    × (lookup (uuid i) session.publications ≡ none)
    × (lookup (uuid i) s'.publications ≡ some p)
    × ((other : String)
        → other ≢ uuid i
        → lookup other s'.publications ≡ lookup other session.publications)
    × ((k : ℕ) (t : TrackToPublish)
        → get_elem? publish_camera.tracks k ≡ some t
        → lookup (uuid (suc i + k)) p.tracks ≡ some (new_track (uuid i) (uuid (suc i + k)) t))
publish_add_lem_example =
    publish_add_lem uuid publish_camera session uuid-AreFresh publish_camera_runs refl

self_close-consume_example :
    (s' : Session) × (m' : Messager ℕ) × (msgs : List RoomMessage) × (self_close false session
        one_node
      ≡ ok (s', m', msgs))
    × (s'.subscriptions ≡ nil)
    × (s'.publications ≡ nil)
    × ((t : Topic) (msg : RoomMessage) (target : Router)
        → get_router msg ≡ some target
        → check_room target.room ≡ ok tt
        → IsFor one_node.node_name target
        → (bm : Boxes ℕ) × (consume m' t msg ≡ ok bm)
          × ((j : String)
              → Runs j bm ↔ (
                  (ps : List String) × (fun : ℕ) × (handler_at ps j (one_node.callbacks t)
                    ≡ some fun)
                  × Matches ps (split target.room)
                  × ¬ (("s" ≡ j) × IsNamed room_patterns ps))))
self_close-consume_example = self_close-consume session one_node are_accepted
