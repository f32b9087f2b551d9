-- ===== src/Server/Pool.antt =====
-- internal/worker/pool.go: the task types, their handlers and the queues. The server that takes the
-- tasks from the queue is asynq's.
use socialpublish.Prelude.{ℕ, String, List, [], ◌∷◌}

abbrev pub task_transcode : String
task_transcode = "media:transcode"

abbrev pub task_publish : String
task_publish = "post:publish"

abbrev pub task_token_refresh : String
task_token_refresh = "account:token_refresh"

abbrev pub task_analytics_poll : String
task_analytics_poll = "analytics:poll"

abbrev pub task_webhook_deliver : String
task_webhook_deliver = "webhook:deliver"

pub data TaskHandler : Type 0 where
  transcode : TaskHandler
  publish : TaskHandler
  token_refresh : TaskHandler
  analytics : TaskHandler
  webhook_deliver : TaskHandler

unfoldable pub mux : List (String × TaskHandler)
mux =
    (task_transcode, transcode)
    ∷ (task_publish, publish)
    ∷ (task_token_refresh, token_refresh)
    ∷ (task_analytics_poll, analytics)
    ∷ (task_webhook_deliver, webhook_deliver)
    ∷ []

-- The queues with their weights.
unfoldable pub queues : List (String × ℕ)
queues = ("critical", 10) ∷ ("default", 5) ∷ ("low", 2) ∷ []
