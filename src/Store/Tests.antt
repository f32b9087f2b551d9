-- ===== src/Store/Tests.antt =====
-- Examples for internal/store/postgres.go.
use socialpublish.Prelude.{[], ◌∷◌, ok, err, ◌≡◌, refl}
use socialpublish.Samples.{
  sample_crypto-IsSealing, sample_crypto, sample_token_key, sample_env, sample_env-IsUp,
  sample_world, sample_post,
}
use socialpublish.Store.Json.{Fields, null, object, text, field, end}
use socialpublish.Store.Types.{Post}
use socialpublish.Store.Database.{World, Error, wrap, named, one_row, call}
use socialpublish.Store.Posts.{get, update, post_is}
use socialpublish.Store.Posts.Metadata.{get-update-null}
use socialpublish.Store.Tokens.{save, decrypt, encrypt_token}
use socialpublish.Store.Tokens.Laws.{decrypt-save}

found : one_row (post_is "p1") sample_world.posts ≡ ok sample_post
unfolding one_row
found = refl

abbrev title : Fields
title = field "title" (text "Hello") end

-- The same post with no metadata.
abbrev bare : Post
bare = record sample_post { metadata = null }

abbrev bare_world : World
bare_world = record sample_world { posts = bare ∷ [] }

found_bare : one_row (post_is "p1") bare_world.posts ≡ ok bare
unfolding one_row
found_bare = refl

get-update-null_example :
    (get sample_env "p1" (update sample_env "p1" (object title) bare_world).1).0
    ≡ err (wrap (named "scan post " "p1" "") Error.bad_column)
get-update-null_example =
    get-update-null sample_env-IsUp "p1" (object title) bare_world bare found_bare refl

saved : (save sample_env sample_crypto sample_token_key (9 ∷ []) sample_world).0 ≡ ok "new"
unfolding save encrypt_token call
saved = refl

decrypt-save_example :
    (decrypt sample_env sample_crypto sample_token_key "new"
      (save sample_env sample_crypto sample_token_key (9 ∷ []) sample_world).1).0
    ≡ ok (9 ∷ [])
decrypt-save_example =
    decrypt-save sample_env sample_crypto sample_token_key (9 ∷ []) sample_world "new"
      sample_env-IsUp sample_crypto-IsSealing tt saved
