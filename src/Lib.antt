-- ===== src/Lib.antt =====
-- Verification of SADE, a Go server (internals/, config/, cmd/) that takes an upload of an operator,
-- watermarks it with ffmpeg, and delivers it to a recipient by signed links: a free preview, and the
-- original behind a Stripe payment.
--
-- The parts and how they interact. An operator signs in with an e-mailed link or
-- code, or with a passkey (internals/app/auth over magic_token, user, passkey, session and login_event);
-- attempts are limited (internals/ratelimit). An upload becomes a row of
-- the jobs table and an asset (internals/app/job, internals/app/asset). The worker pool
-- (internals/worker) claims pending rows, runs ffmpeg, and writes the outcome back: done, a retry after
-- a back-off, or failed. The recipient gets tokens of internals/token, which the public routes of
-- internals/app/share and the payment service (internals/app/payment) verify; a paid job unlocks the
-- token of the original. Each delivery leaves rows in internals/app/job_event.
--
-- The modules.
--   Ratelimit: internals/ratelimit/limiter.go. `allow`, `sweep`, `keep_after` are Allow, sweep and
--     keepAfter; `overwritten` is the backing array that keepAfter leaves to its caller.
--   MagicToken: internals/app/magic_token/repo.go. `create`, `consume`, `peek`, `consume_by_code` and
--     `delete_expired` are the methods of the repository.
--   Session, LoginEvent, User, Passkey: the rows and repositories of the packages of those names;
--     User.Service: internals/app/user/service.go (`ensure_by_email`, `set_role`, ...).
--   Auth: internals/app/auth. Auth.Start, Auth.Login and Auth.Live are service.go and devices.go
--     (`request_link`, `complete`, `complete_with_code`, `start_session`, `authenticate_session`,
--     `revoke_session`, ...); Auth.Passkeys and Auth.Ceremony are passkeys.go; Auth.Policy is the
--     sign-up policy and the codes; Auth.Device is DescribeUserAgent. Auth.Handler and
--     Auth.Account are the routes of handler.go, Auth.Admin those of internals/app/user/handler.go, which
--     app.go wires to RevokeAll. Auth.Store is what the sessions
--     promise, Auth.Rows, Auth.Refines and Auth.Histories that they do; Auth.Second, Auth.Requirement
--     and Auth.Lockout are about accounts that ask for a passkey, Auth.Uniform is about what RequestLink
--     tells, Auth.Cookies about the session cookie.
--   Asset, JobEvent, Payment: the rows and repositories of internals/app/asset, job_event and payment.
--   Payment.Service, Payment.Intent, Payment.Status: internals/app/payment/service.go; `create_intent`,
--     `status` and `webhook` are CreateIntent, Status and Webhook.
--   Job, Job.Repo: the rows of the jobs table and internals/app/job/repo.go, one definition for each
--     method (`claim_pending`, `mark_done`, `mark_failed`, `mark_for_retry`, `reset_stuck`, ...).
--   Job.Service, Job.Owned, Job.Create: internals/app/job/service.go; `create`, `rollback`, `get`,
--     `asset`, `list`, `delete` and `usage` are the methods of those names.
--   Worker, Worker.Handle: internals/worker/struct.go and worker.go; `with_defaults`, `handle` and
--     `safe_process` are withDefaults, handle and safeProcess.
--     Worker.Retry, Worker.Runs and Worker.Stuck are about its outcomes, about jobs that err each time, and
--     about jobs that bring the process down: `requeue_stuck` is the reset of Start and dispatch.
--   Worker.Process, Worker.Run: internals/worker/process.go and notify.go with the adapters of
--     worker_wiring.go; `process_job` is process, `notify` and `email_preview` the two PreviewReady. Worker.Preview,
--     Worker.Recorded, Asset.Single and Asset.Upserted are about what a run leaves.
--   Wmopts: internals/wmopts/wmopts.go; `decode_opts`, `render_text` and `render_text_fit` are Decode,
--     RenderText and RenderTextFit.
--   Brand, Brand.Service: internals/app/brand; `set_logo`, `remove_logo`, `drop_logo`, `update_look` are
--     SetLogo, RemoveLogo, dropLogo and Update.
--   Http: internals/httpx/httpx.go; `refused` and `replied` are Error and WriteJSON, `page_limit` and
--     `page_offset` Page. Payment.Routes, Job.Routes and Brand.Routes are the handler.go of
--     internals/app/payment, job and brand; Payment.Refused is about a refused webhook.
--   Proxy: internals/app/proxy.go; `client_ip` and `scheme` are clientIP and scheme, and Proxy.Forged is
--     about the headers that a client makes up.
--   Token: internals/token/main.go; `sign` and `verify` are Sign and Verify.
--   Share.Serve: internals/app/share/handler.go; `resolve`, `record_access`, `sanitize_filename` and
--     `serve` are the functions of those names.
--   Share.Operator: internals/app/share/operator.go; `load`, `resend` and `set_links` are load, Resend
--     and SetLinks, and `delivery_route` of Share.Delivery is Delivery. Share.Hidden is about the job of
--     somebody else.
--   GoText: the functions of Go's strings and path/filepath that the code uses.
--   Base: lists, tables, results and tests that the parts share. Examples: the definitions and the
--     theorems at concrete inputs.
--
-- How the state is modelled. A table is the list of its rows, and a statement of SQL is a function on
-- it; a transaction is one step, as the database makes it. The environment says which statements
-- fail, so every error path is a value. An instant is a number of nanoseconds since Go's zero time,
-- or since the Unix epoch for tokens. Text is the list of its code points; where the code cuts a text at
-- a number of bytes, or folds the case of letters, it is taken to be ASCII. A 64-bit shift or sum that
-- the code can bring over the edge is written with `% 2 ^ 64` (Worker.Handle); other sizes and
-- amounts are natural numbers below 2 ^ 63. Every definition is structural recursion, so there is no
-- fuel. HMAC, SHA-256, base64, stripe-go, go-webauthn, net/netip, ffmpeg, MIME types and address parsing are
-- parameters; where
-- a theorem relies on them, its hypotheses are their documented laws, and Examples has an instance.
--
-- What is not modelled: goroutines and the polling loop of the pool, the router and its middleware,
-- the parsing of forms and bodies, the bytes that are streamed, the scaling of pictures, the texts of
-- mails, the ffmpeg command lines, the loading of the configuration, the database driver and its
-- migrations, the SMTP mailer and its templates, and logs.
pub mod Base
pub mod Ratelimit
pub mod MagicToken
pub mod Asset
pub mod JobEvent
pub mod Payment
pub mod Job
pub mod GoText
pub mod Http
pub mod Proxy
pub mod Wmopts
pub mod Brand
pub mod Worker
pub mod Token
pub mod Share
pub mod Session
pub mod LoginEvent
pub mod User
pub mod Passkey
pub mod Auth
pub mod Examples
