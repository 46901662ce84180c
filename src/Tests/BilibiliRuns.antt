-- ===== src/Tests/BilibiliRuns.antt =====
-- platforms/bilibili/ on concrete inputs.
use dmproxy.Base.{codes, ◌≡◌, refl, [], ◌∷◌, ◌++◌, none, some, false}
use dmproxy.Network.{bad_message}
use dmproxy.Bilibili.Client.{Client, new_client}
use dmproxy.Bilibili.Http.{content_read}
use dmproxy.Bilibili.Http as Http
use dmproxy.Bilibili.Http.Content.{receive, repeated, receive_lem}
use dmproxy.Network.Life.{Life, outcome, Reach, starts, goes_on, completes, IsSingle}
use dmproxy.Bilibili.Client.{on_http_resolve, Handler}
use dmproxy.Bilibili.Http.{start, http_resolved}
use dmproxy.Bilibili.Life.{Result, complete, lifetime, leads, one_call}
use dmproxy.Tests.Fixture.{messages, xml, document}

abbrev watcher : Client
watcher = new_client (codes "7")

content_example :
    (receive (codes "ab" ∷ codes "c" ∷ []) (Http.header_read (codes "x") none watcher).1).live_msg
    ≡ [] ++ repeated [] (codes "ab" ∷ codes "c" ∷ [])
content_example = receive_lem (codes "x") (codes "ab" ∷ codes "c" ∷ []) watcher

abbrev started_watcher : Client
unfolding start
started_watcher = (start watcher).1

-- The HTTP server is not found.
abbrev missing : Result
missing = record { bytes = codes ""; iter = 0; ec = some bad_message; closed = none; uid = 5 }

abbrev given_up : Life Client Handler
given_up = outcome (complete document on_http_resolve missing) started_watcher [] false

given_up-Reach : Reach (lifetime document) watcher given_up
unfolding start http_resolved
given_up-Reach = goes_on starts (completes [] [] on_http_resolve missing refl)

fetch_example : IsSingle leads given_up
fetch_example = one_call document given_up given_up-Reach
