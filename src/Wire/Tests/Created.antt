-- ===== src/Wire/Tests/Created.antt =====
-- A request of Create, from the SDK to the tables and back.
use socialpublish.Prelude.{
  pos, true, none, some, List, [], ◌∷◌, ◌++◌, map, codes, bytes_eq, if◌then◌else◌, ok, ◌≡◌, refl,
  subst, arith, length, ◌≤◌, ◌^◌,
}
use socialpublish.Samples.{sample_env, sample_world}
use socialpublish.Store.Json.{Json, null, object, field, text, end}
use socialpublish.Store.Types.{TargetRow}
use socialpublish.Store.Types
use socialpublish.Store.Posts
use socialpublish.Store.Database.{World, ◌>>=◌, call, exists_row}
use socialpublish.Api.Http
use socialpublish.Api.Post
use socialpublish.Api.Post.{create_targets}
use socialpublish.Api.Post.Creating.{AreRowsOf}
use socialpublish.Transport.Backoff.{Float}
use socialpublish.Transport.Retry.{RetryConfig, finish, do_json}
use socialpublish.Sdk.Builder.Plan.{Request}
use socialpublish.Sdk.Posts.{no_post}
use socialpublish.Wire.Values.{JsonText, IsRead, text_fields}
use socialpublish.Wire.Answers.{body_json}
use socialpublish.Wire.Reads.{read_post}
use socialpublish.Wire.Requests.{request_json, read_create_request}
use socialpublish.Wire.Created.{bare, received}
use socialpublish.Wire.Served.{on_wire, codec, serve_create, decode_body, decode, IsReadable}
use socialpublish.Wire.Stored.{sent, answered, create-stored}
use socialpublish.Wire.Tests.{times, chars, float_text, first_key}

-- A video that is to be published at once.
abbrev request : Request
request = record {
  media_ids = "m1" ∷ [];
  targets =
      record { account_id = "a1"; platform = "youtube"; instagram = none; youtube = none } ∷ [];
  scheduled_at = none;
  publish_immediately = true;
  metadata = some (("tag", "a") ∷ []);
}

abbrev request_tree : Json
request_tree = request_json float_text times request

abbrev answer_tree : Json
answer_tree =
    elim (body_json times chars
      (Post.create sample_env "acme" (some (received request)) sample_world).0.body) [
        | none ↦ null
        | some j ↦ j
      ]

-- It reads the request and the answer.
abbrev json : JsonText
json = record {
  print = first_key;
  parse = λ b. if bytes_eq b (codes "media_ids") then some request_tree else some answer_tree;
}

abbrev server : Http.Response × World
server = answered json times float_text sample_env "acme" request sample_world

request-IsRead : IsRead json request_tree
unfolding first_key request_json bytes_eq
request-IsRead = refl

request_fits : length (sent json times float_text request) ≤ 2 ^ 20
unfolding first_key request_json
request_fits = omega arith

server-201 : server.0.status ≡ 201
unfolding serve_create decode_body decode first_key request_json read_create_request create_targets
    Post.create Posts.create Posts.create_target call exists_row ◌>>=◌
server-201 = refl

server-tree : body_json times chars server.0.body ≡ some answer_tree
unfolding serve_create decode_body decode first_key request_json read_create_request create_targets
    Post.create Posts.create Posts.create_target call exists_row ◌>>=◌ body_json received
server-tree = refl

answer-IsRead : IsRead json answer_tree
unfolding body_json first_key bytes_eq create_targets Post.create Posts.create Posts.create_target
    call exists_row ◌>>=◌ received
answer-IsRead = refl

server-IsReadable : IsReadable json times chars server.0.body
server-IsReadable j e =
    let same : answer_tree ≡ j = cc (server-tree) in subst (IsRead json) same answer-IsRead

abbrev retries : RetryConfig
retries = record { max_retries = pos 3; retry_wait_min = pos 1; retry_wait_max = pos 10 }

abbrev float : Float
float = record { to_float = λ n. n; out_of_range = pos 0 }

create-stored_example :
    (p : Types.Post) × (rows : List TargetRow) × (p.workspace_id ≡ "acme")
    × (p.status ≡ "draft")
    × (p.media_ids ≡ "m1" ∷ [])
    × (p.scheduled_at ≡ none)
    × (p.metadata ≡ object (field "tag" (text "a") end))
    × AreRowsOf sample_env p.id (map bare request.targets) rows
    × (server.1.posts ≡ sample_world.posts ++ p ∷ [])
    × (server.1.targets ≡ sample_world.targets ++ rows)
    × (do_json
          (codec json times (read_post times) no_post (λ n. "") (λ b. none))
          float
          retries
          true
          (λ n. some (on_wire json times chars none server.0))
          true
        ≡ finish (ok (some (record no_post { status = "draft"; metadata = ("tag", "a") ∷ [] }))))
unfolding text_fields
create-stored_example =
    create-stored json times chars (λ n. "") (λ b. none) float_text sample_env "acme" request
      sample_world float retries 3 (λ n. some (on_wire json times chars none server.0))
      (λ t e. absurd (cc)) request-IsRead request_fits (omega arith) refl refl server-201
      server-IsReadable
