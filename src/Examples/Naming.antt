-- ===== src/Examples/Naming.antt =====
-- The file names of internals/app/share at a concrete name.
use sade_safe_media_delivery.Base.{codes, delete_where, refl, ◌≡◌}
use sade_safe_media_delivery.Share.Serve.{sanitize_filename}

cleaned : sanitize_filename (codes "a/\"b.mp4") ≡ codes "ab.mp4"
unfolding sanitize_filename delete_where
cleaned = refl
