-- ===== src/Wire/Stored.antt =====
-- Create of sdk/services/post/service.go through DoJSON of sdk/transport.go, the handler Create of
-- internal/api/handler/post.go and the insertions of internal/store/postgres.go.
use socialpublish.Prelude.{
  ℕ, suc, true, ◌<◌, ◌≤◌, ◌^◌, ℤ, pos, String, Option, none, some, List, [], ◌∷◌, ◌++◌, map, Bytes,
  length, take-whole, ok, ◌≡◌, refl,
}
use socialpublish.Store.Types.{Time, TargetRow}
use socialpublish.Store.Types
use socialpublish.Store.Database.{World, Env}
use socialpublish.Api.Http
use socialpublish.Api.Http.{post_body}
use socialpublish.Api.Post.{initial_status}
use socialpublish.Api.Post.Creating.{AreRowsOf, create-created}
use socialpublish.Transport.Backoff.{Float}
use socialpublish.Transport.Retry.{
  Response, RetryConfig, finish, do_json, attempt_result, handle_response,
}
use socialpublish.Transport.Retry.Laws.{do_json-ok}
use socialpublish.Sdk.Builder.Plan.{Request}
use socialpublish.Sdk.Posts.{no_post}
use socialpublish.Wire.Values.{JsonText, IsRead, TimeText, as_text_map, text_fields, read_text_map}
use socialpublish.Wire.Answers.{body_json, post_json}
use socialpublish.Wire.Reads.{read_post}
use socialpublish.Wire.Requests.{request_json, or_no_map}
use socialpublish.Wire.Created.{bare, received, metadata_json, read_create_request-request_json}
use socialpublish.Wire.Seen.{read_post-post_json}
use socialpublish.Wire.Served.{
  codec, on_wire, serve_create, decode_body, decode, max_body, IsReadable,
}

read_text_map-text_fields : (m : List (String × String)) → read_text_map (text_fields m) ≡ some m
unfolding read_text_map text_fields
read_text_map-text_fields [] = refl
read_text_map-text_fields ((k, s) ∷ m) = cc (read_text_map-text_fields m)

as_text_map-metadata_json : (m : List (String × String)) → as_text_map (metadata_json m) ≡ some m
unfolding as_text_map
as_text_map-metadata_json [] = refl
as_text_map-metadata_json (e ∷ m) = read_text_map-text_fields (e ∷ m)

module _ (json : JsonText) (times : TimeText) (float_text : ℕ → String) where
  -- The text of the request of Create.
  abbrev pub sent : Request → Bytes
  sent r = json.print (request_json float_text times r)

  decode_body-sent :
      (r : Request)
      → ((t : Time) → r.scheduled_at ≡ some t → times.parse (times.print t) ≡ some t)
      → IsRead json (request_json float_text times r)
      → length (sent r) ≤ max_body
      → decode_body json times (some (sent r)) ≡ some (received r)
  unfolding decode_body
  decode_body-sent r h reads fits =
      rw (take-whole max_body (sent r) fits, decode, reads)
        (read_create_request-request_json float_text times r h)

  -- The server on the request of the SDK.
  abbrev pub answered : Env → (workspace_id : String) → Request → World → Http.Response × World
  answered env workspace_id r w = serve_create json times env workspace_id (some (sent r)) w

module _ (json : JsonText) (times : TimeText) (chars : Bytes → String) (status_text : ℕ → String)
    (until : Bytes → Option ℤ) where
  -- A response 201 that holds a post.
  attempt_result-created :
      (answer : Http.Response) (p : Types.Post) (metadata : List (String × String))
      → answer.status ≡ 201
      → answer.body ≡ post_body (some p)
      → as_text_map p.metadata ≡ some metadata
      → IsReadable json times chars answer.body
      → attempt_result
          (codec json times (read_post times) no_post status_text until)
          true
          (some (on_wire json times chars none answer))
        ≡ ok (some (record no_post { status = p.status; metadata = metadata }))
  unfolding attempt_result handle_response on_wire decode body_json
  attempt_result-created answer p metadata s b h readable =
      rw (s, b, (rw b at readable) (post_json times p) refl, read_post-post_json times p metadata h)
        refl

  module _ (float_text : ℕ → String) (env : Env) (workspace_id : String) (r : Request)
      (w : World) where
    abbrev outcome : Http.Response × World
    outcome = answered json times float_text env workspace_id r w

    -- Where the request, its time and the answer are read as they are written, the request is within
    -- the first megabyte, maxRetries is at most 2^63 - 2, and the first attempt is answered by the server,
    -- with 201: the server has stored one post of the workspace with the media, the time and the metadata
    -- of the request, scheduled if there is a time and else a draft, whatever the wish to publish at once,
    -- and one row for each target without format and configuration; and DoJSON has sent one request and
    -- gives a post with that status and metadata and nothing else, without an identifier.
    pub create-stored :
        (float : Float) (cfg : RetryConfig) (retries : ℕ) (send : ℕ → Option Response)
        → ((t : Time) → r.scheduled_at ≡ some t → times.parse (times.print t) ≡ some t)
        → IsRead json (request_json float_text times r)
        → length (sent json times float_text r) ≤ max_body
        → suc retries < 2 ^ 63
        → cfg.max_retries ≡ pos retries
        → send 0 ≡ some (on_wire json times chars none outcome.0)
        → outcome.0.status ≡ 201
        → IsReadable json times chars outcome.0.body
        → (p : Types.Post) × (rows : List TargetRow) × (p.workspace_id ≡ workspace_id)
          × (p.status ≡ initial_status r.scheduled_at)
          × (p.media_ids ≡ r.media_ids)
          × (p.scheduled_at ≡ r.scheduled_at)
          × (p.metadata ≡ metadata_json (or_no_map r.metadata))
          × AreRowsOf env p.id (map bare r.targets) rows
          × (outcome.1.posts ≡ w.posts ++ p ∷ [])
          × (outcome.1.targets ≡ w.targets ++ rows)
          × (do_json
                (codec json times (read_post times) no_post status_text until)
                float
                cfg
                true
                send
                true
              ≡ finish (
                  ok (
                    some (record no_post {
                      status = initial_status r.scheduled_at;
                      metadata = or_no_map r.metadata;
                    }))))
    unfolding serve_create received
    create-stored float cfg retries send reading reads fits few counts first created readable =
        let got = decode_body-sent json times float_text r reading reads fits in
        let (p, rows, a, b, c, d, e, f, g, h, i) =
          create-created env workspace_id (received r) w (rw got at created) in
        let texts : as_text_map p.metadata ≡ some (or_no_map r.metadata) =
          rw e (as_text_map-metadata_json (or_no_map r.metadata)) in
        let body : outcome.0.body ≡ post_body (some p) = rw got i in
        let decoded =
          attempt_result-created outcome.0 p (or_no_map r.metadata) created body texts readable in
        (
          p,
          rows,
          a,
          b,
          c,
          d,
          e,
          f,
          rw got g,
          rw got h,
          do_json-ok _ float cfg true send retries _ few counts (rw (first, decoded, b) refl),
        )
