-- ===== src/Tests/Settings.antt =====
-- The storage settings at work.
use helpdesk_go.Base.{◌≡◌, refl, true, [], some, none}
use helpdesk_go.Http.{World, replied, bool, obj, field, done}
use helpdesk_go.Settings.Storage.{Stored, form_values, has_required}

abbrev minio : Stored
minio = record {
  endpoint = some "http://minio:9000";
  region = none;
  bucket = some "attachments";
  access_key_id = some "key";
  secret_access_key = some "secret";
  use_ssl = some "false";
  path_style = some "true";
}

abbrev world : World
world = record {
  server = λ sent q.
      replied
        (record { status = 200; text = none; parsed = some (obj (field "ok" (bool true) done)) });
  sent = [];
  slept = 0;
}

minio_given : has_required (form_values minio) ≡ true
unfolding form_values
minio_given = refl
