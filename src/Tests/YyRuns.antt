-- ===== src/Tests/YyRuns.antt =====
-- platforms/YY/ on concrete inputs.
use dmproxy.Base.{codes, ◌≡◌, refl, none, true}
use dmproxy.Network.{text}
use dmproxy.Network.Action.{ok}
use dmproxy.Yy.Client.{Client, new_client}
use dmproxy.Yy.Timer.{message, handle, handle-has_timer}
use dmproxy.Tests.Fixture.{messages, encoders, chat_xml, document}

abbrev logged_in : Client
logged_in = record (new_client (codes "7")) { has_timer = true }

timer_example :
    ((handle document (message none text (codes "{}")) logged_in).0 ≡ ok tt)
    × ((handle document (message none text (codes "{}")) logged_in).1.has_timer ≡ true)
timer_example = handle-has_timer document (message none text (codes "{}")) logged_in refl
