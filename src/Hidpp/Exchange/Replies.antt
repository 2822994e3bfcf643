-- ===== src/Hidpp/Exchange/Replies.antt =====
-- From the request to the reply: the queue, the match and the reading of the response together.
use logi_battery.Base.{◌≡◌, ◌⊎◌}
use logi_battery.Hidpp.Message.{HidppMessage, IsFrame}
use logi_battery.Hidpp.V20.{V20Message, header}
use logi_battery.Hidpp.V20.Correlation.{Interprets}
use logi_battery.Hidpp.Channel.{Channel, timeout, implementation, message_type_not_supported}
use logi_battery.Hidpp.Exchange.{V20Outcome, replied, failed, in_progress}

-- What the caller of `send_v20` may conclude.
abbrev pub Replies : V20Message → V20Outcome → Type 0
Replies msg (replied r) = (resp : HidppMessage) × IsFrame resp × Interprets (header msg) resp r
Replies msg (failed e) = (e ≡ timeout) ⊎ (e ≡ implementation) ⊎ (e ≡ message_type_not_supported)
Replies msg in_progress = Unit {0}
