-- ===== src/Api/Post/Creating.antt =====
-- internal/api/handler/post.go: PostHandler.Create.
use socialpublish.Prelude.{
  suc, String, Option, none, some, List, [], ◌∷◌, ◌++◌, append_assoc, append-nil, str_eq, ok,
  Result-cases, Bool-cases, inl, inr, ◌&&◌, ◌≡◌, refl, ap, ◌∙◌, sym, arith,
}
use socialpublish.Store.Json.{Json}
use socialpublish.Store.Types.{Time, Post, TargetRow, Workspace, Account}
use socialpublish.Store.Database.{World, Env, ◌>>=◌, call, exists_row}
use socialpublish.Store.Posts
use socialpublish.Store.Posts.{post_is, new_target}
use socialpublish.Api.Http.{post_body}
use socialpublish.Api.Post.{
  TargetReq, CreatePostRequest, initial_status, create_targets, create, create_request,
}

module _ (env : Env) where
  -- The row that a target of the request is stored as.
  abbrev pub row_of : String → TargetReq → String → TargetRow
  row_of post_id t id = new_target env id post_id t.account_id t.platform t.format t.config

  -- One row for each target of the request, in order, whatever their identifiers.
  abbrev pub AreRowsOf : String → List TargetReq → List TargetRow → Type 0
  AreRowsOf post_id [] [] = Unit {0}
  AreRowsOf post_id (t ∷ ts) (r ∷ rs) = (r ≡ row_of post_id t r.id) × AreRowsOf post_id ts rs
  AreRowsOf post_id _ _ = ⊥

  create_target-ok :
      (post_id : String) (t : TargetReq) (w : World) (id : String)
      → (Posts.create_target env post_id t.account_id t.platform t.format t.config w).0 ≡ ok id
      → (Posts.create_target env post_id t.account_id t.platform t.format t.config w).1
        ≡ record w { targets = w.targets ++ row_of post_id t id ∷ []; calls = suc w.calls }
  unfolding Posts.create_target call
  create_target-ok post_id t w id h = elim (Bool-cases (env.fails w.calls)) [
    | inl e ↦ absurd (ground arith)
    | inr e ↦
        elim (Bool-cases (
          exists_row (post_is post_id) w.posts
          && exists_row (λ (a : Account). str_eq a.id t.account_id) w.accounts)) [
            | inl f ↦
                let same : env.fresh w.calls ≡ id = ground arith in
                rw (e, f)
                  (ap
                    (λ (i : String). record w {
                      targets = w.targets ++ row_of post_id t i ∷ [];
                      calls = suc w.calls;
                    })
                    same)
            | inr f ↦ absurd (ground arith)
          ]
  ]

  -- What a loop over the targets that went well has done.
  abbrev AddsTargets : String → List TargetReq → World → World → Type 0
  AddsTargets post_id ts w w' =
      (rows : List TargetRow) × AreRowsOf post_id ts rows
      × (w'.targets ≡ w.targets ++ rows)
      × (w'.posts ≡ w.posts)

  create_targets-next :
      (post_id : String) (t : TargetReq) (ts : List TargetReq) (w w' : World) (id : String)
      → AddsTargets post_id ts
          (record w { targets = w.targets ++ row_of post_id t id ∷ []; calls = suc w.calls })
          w'
      → AddsTargets post_id (t ∷ ts) w w'
  unfolding new_target
  create_targets-next post_id t ts w w' id (rows, are, targets, posts) = (
    row_of post_id t id ∷ rows,
    (refl, are),
    targets ∙ append_assoc w.targets (row_of post_id t id ∷ []) rows,
    posts,
  )

  create_targets-ok :
      (post_id : String) (ts : List TargetReq) (w : World)
      → (create_targets env post_id ts w).0 ≡ ok tt
      → AddsTargets post_id ts w (create_targets env post_id ts w).1
  unfolding create_targets ◌>>=◌
  create_targets-ok post_id [] w h = ([], tt, sym (append-nil w.targets), refl)
  create_targets-ok post_id (t ∷ ts) w h =
      let m = Posts.create_target env post_id t.account_id t.platform t.format t.config in
      elim (Result-cases (m w).0) [
        | inl (id, e) ↦
            let after = create_target-ok post_id t w id e in
            let w1 = record w {
              targets = w.targets ++ row_of post_id t id ∷ [];
              calls = suc w.calls;
            } in
            create_targets-next post_id t ts w (create_targets env post_id (t ∷ ts) w).1 id
              (rw (e, after) (create_targets-ok post_id ts w1 (rw (e, after) at h)))
        | inr (x, e) ↦ absurd (ground arith)
      ]

  -- The row that the insertion makes.
  abbrev new_post :
      (workspace_id status : String) (media_ids : List String) (scheduled_at : Option Time)
      → Json
      → World
      → Post
  new_post workspace_id status media_ids scheduled_at metadata w = record {
    id = env.fresh w.calls;
    workspace_id = workspace_id;
    status = status;
    media_ids = media_ids;
    scheduled_at = scheduled_at;
    published_at = none;
    metadata = metadata;
    created_at = env.now w.calls;
    updated_at = env.now w.calls;
  }

  create-ok :
      (workspace_id status : String) (media_ids : List String) (scheduled_at : Option Time)
      (metadata : Json) (w : World) (p : Post)
      → (Posts.create env workspace_id status media_ids scheduled_at metadata w).0 ≡ ok p
      → (p.workspace_id ≡ workspace_id)
        × (p.status ≡ status)
        × (p.media_ids ≡ media_ids)
        × (p.scheduled_at ≡ scheduled_at)
        × (p.metadata ≡ metadata)
        × ((Posts.create env workspace_id status media_ids scheduled_at metadata w).1
            ≡ record w { posts = w.posts ++ p ∷ []; calls = suc w.calls })
  unfolding Posts.create call
  create-ok workspace_id status media_ids scheduled_at metadata w p h =
      elim (Bool-cases (env.fails w.calls)) [
        | inl e ↦ absurd (ground arith)
        | inr e ↦
            elim (Bool-cases
              (exists_row (λ (ws : Workspace). str_eq ws.id workspace_id) w.workspaces)) [
                | inl f ↦
                    let same : new_post workspace_id status media_ids scheduled_at metadata w ≡ p =
                      ground arith in
                    (
                      ap (λ (q : Post). q.workspace_id) (sym same),
                      ap (λ (q : Post). q.status) (sym same),
                      ap (λ (q : Post). q.media_ids) (sym same),
                      ap (λ (q : Post). q.scheduled_at) (sym same),
                      ap (λ (q : Post). q.metadata) (sym same),
                      rw (e, f)
                          (ap
                            (λ (q : Post). record w {
                              posts = w.posts ++ q ∷ [];
                              calls = suc w.calls;
                            })
                            same),
                    )
                | inr f ↦ absurd (ground arith)
              ]
      ]

  -- If Create answers 201, it has stored one post, of the workspace, with the values of the
  -- request, as a draft or, with a time, as scheduled, and one pending target for each target of
  -- the request, in their order, and the answer holds that post.
  pub create-created :
      (workspace_id : String) (req : CreatePostRequest) (w : World)
      → (create env workspace_id (some req) w).0.status ≡ 201
      → (p : Post) × (rows : List TargetRow) × (p.workspace_id ≡ workspace_id)
        × (p.status ≡ initial_status req.scheduled_at)
        × (p.media_ids ≡ req.media_ids)
        × (p.scheduled_at ≡ req.scheduled_at)
        × (p.metadata ≡ req.metadata)
        × AreRowsOf p.id req.targets rows
        × ((create env workspace_id (some req) w).1.posts ≡ w.posts ++ p ∷ [])
        × ((create env workspace_id (some req) w).1.targets ≡ w.targets ++ rows)
        × ((create env workspace_id (some req) w).0.body ≡ post_body (some p))
  unfolding create create_request ◌>>=◌
  create-created workspace_id req w h =
      let m =
        Posts.create env workspace_id (initial_status req.scheduled_at) req.media_ids
          req.scheduled_at req.metadata in
      elim (Result-cases (m w).0) [
        | inl (p, e) ↦
            let (a, b, c, d, f, after) = create-ok _ _ _ _ _ w p e in
            let w1 = record w { posts = w.posts ++ p ∷ []; calls = suc w.calls } in
            elim (Result-cases (create_targets env p.id req.targets w1).0) [
              | inl (_, g) ↦
                  let (rows, are, targets, posts) = create_targets-ok p.id req.targets w1 g in
                  (
                    p,
                    rows,
                    a,
                    b,
                    c,
                    d,
                    f,
                    are,
                    rw (e, after, g) posts,
                    rw (e, after, g) targets,
                    rw (e, after, g) refl,
                  )
              | inr (x, g) ↦
                  let bad : 500 ≡ 201 = rw (e, after, g) at h in absurd (omega (arith, bad))
            ]
        | inr (x, e) ↦ let bad : 500 ≡ 201 = rw e at h in absurd (omega (arith, bad))
      ]
