-- ===== src/Samples/Messages.antt =====
-- proto/message.ext.go on small inputs.
use conference_go.Common.{some, ◌≡◌}
use conference_go.Proto.{Router}
use conference_go.Message.{RoomMessage, ping}
use conference_go.Message.Client.{to_client_message}
use conference_go.Message.Client.Hidden.{node_from, client_reads, client_reads-to_client_message}

abbrev router : Router
router = record { room = "a"; node_from = "n1"; node_to = "n2"; socket_from = "s"; socket_to = "t" }

abbrev asked : RoomMessage
asked = ping (record { router = some router; msg_id = 4 })

client_reads-to_client_message_example : client_reads node_from (to_client_message asked) ≡ ""
client_reads-to_client_message_example = client_reads-to_client_message asked node_from (λ h. h)
