-- ===== src/Examples/Switching.antt =====
-- The links switch of internals/app/share at a concrete job.
use sade_safe_media_delivery.Asset.{Asset}
use sade_safe_media_delivery.Base.{
  [], codes, contains_byte, count_where, delete_where, false, find_row, inr, none, ok, refl, some,
  str_eq, true, update_where, ◌≡◌, ◌≢◌,
}
use sade_safe_media_delivery.Examples.Claiming.{job_row}
use sade_safe_media_delivery.Examples.Mailing.{desk, order}
use sade_safe_media_delivery.Examples.Paying.{open_signer, service}
use sade_safe_media_delivery.Examples.Uploading.{works}
use sade_safe_media_delivery.Http.{refused}
use sade_safe_media_delivery.Job.Routes.{content_route, delete_route, get_route}
use sade_safe_media_delivery.Payment.Service.{Request, Shop, resolve_preview}
use sade_safe_media_delivery.Share.Closed.{switch_links_closes}
use sade_safe_media_delivery.Share.Delivery.{Links, delivery_route}
use sade_safe_media_delivery.Share.Hidden.{routes_hide}
use sade_safe_media_delivery.Share.Operator.{Desk, resend, set_links, switch_links}
use sade_safe_media_delivery.Share.Serve.{Visit, for_original, refuse, resolve, send, serve}

abbrev visit : Visit
visit = record {
  asset_fails = λ s. false;
  job_fails = λ s. false;
  event_fails = λ s. false;
  now = 7;
  event_id = codes "e2";
  is_wired = true;
  is_get = true;
  range = [];
}

abbrev after_off : Desk
after_off = (switch_links (order 5) desk (codes "j1") false).1

abbrev shop : Shop
shop = record {
  assets = after_off.works.assets;
  jobs = after_off.works.jobs;
  payments = [];
  events = [];
}

abbrev purchase : Request
purchase = record {
  asset_fails = λ s. false;
  job_fails = λ s. false;
  payment_fails = λ s. false;
  event_fails = λ s. false;
  now = 7;
  payment_id = codes "p2";
  event_id = codes "e1";
  is_wired = true;
}

-- Before, the link of the original is served.
served :
    (serve open_signer visit works.assets works.jobs [] (codes "o") for_original).0
    ≡ send (codes "video/mp4") (codes "attachment") (codes "a.mp4") (codes "o")
unfolding serve find_row str_eq contains_byte delete_where count_where
served = refl

-- Afterwards, it is gone.
gone :
    (serve open_signer visit after_off.works.assets after_off.works.jobs []
      (codes "o")
      for_original).0
    ≡ refuse 410
unfolding serve find_row str_eq count_where update_where switch_links
gone = refl

switch_links_closes_example :
    ((a : Asset)
      → resolve open_signer visit after_off.works.assets after_off.works.jobs
          (codes "o")
          for_original
        ≡ ok a
      → a.job_id ≢ codes "j1")
    × ((pa oa : Asset)
        → resolve_preview service purchase shop (codes "o") ≡ ok (pa, oa)
        → pa.job_id ≢ codes "j1")
unfolding switch_links count_where str_eq update_where
switch_links_closes_example =
    switch_links_closes (order 5) desk after_off (codes "j1") (codes "o") open_signer visit
      for_original service purchase shop refl refl refl refl

abbrev links : Links
links = record { signer = open_signer; public_url = codes "https://sade"; share_ttl = 60 }

routes_hide_example :
    (get_route (order 5).job works (some (codes "u2")) (codes "j1")
      ≡ refused 404 "job not found" works)
    × (delete_route (order 5).job works (some (codes "u2")) (codes "j1")
        ≡ refused 404 "job not found" works)
    × (content_route (order 5).job works (some (codes "u2")) (codes "j1") (codes "o") [] false
        ≡ refused 404 "not found" works)
    × (delivery_route links 7 (order 5) works (some (codes "u2")) (codes "j1") ≡ (404, none))
    × (resend (order 5) desk (some (codes "u2")) (codes "j1") ≡ (404, desk))
    × (set_links (order 5) desk (some (codes "u2")) (codes "j1") (some false) ≡ (404, desk))
unfolding find_row str_eq
routes_hide_example =
    routes_hide (order 5) desk links 7 (codes "u2") (codes "j1") (codes "o") [] false (some false)
      refl refl (inr (job_row "j1" 1, refl, refl))
