-- ===== src/Ssm/Transport/Tests.antt =====
-- A transfer to and from a host with one file, through a bucket with one object.
use community_aws.Base.{
  ◌≡◌, refl, true, false, Option, none, some, [], if◌then◌else◌, string_eq, nat_eq, bool_eq,
  option_eq, ok,
}
use community_aws.Base.Int.{pos}
use community_aws.Ssm.Text.{Text, codes, starts_with}
use community_aws.Ssm.Transport.{
  Env, put_command, get_command, file_transport_command, put_file, fetch_file,
}

record Cells : Type 0 where
  here : Option Text
  there : Option Text
  bucket : Option Text

abbrev run_command : Text → Cells → Cells
run_command c w =
    if starts_with c (codes "curl --request PUT")
    then record w { bucket = w.there }
    else record w { there = w.bucket }

abbrev small : Env
small = record {
  World = Cells;
  exec = λ c w. ok ((pos 0, [], []), run_command c w);
  put_url = λ key. key;
  get_url = λ key. key;
  upload = λ path key w. ok (record w { bucket = w.here });
  download = λ key path w. ok (record w { here = w.bucket });
  exists = λ path w. true;
}

abbrev notes : Text
notes = codes "notes"

abbrev local : Cells
local = record { here = some notes; there = none; bucket = none }

abbrev remote : Cells
remote = record { here = none; there = some notes; bucket = none }

abbrev done : Cells
done = record { here = some notes; there = some notes; bucket = some notes }

put_run : put_file small false (codes "a") (codes "b") local ≡ ok ((pos 0, [], []), done)
unfolding put_file file_transport_command get_command starts_with
put_run = refl

fetch_run : fetch_file small false (codes "b") (codes "a") remote ≡ ok ((pos 0, [], []), done)
unfolding fetch_file file_transport_command put_command starts_with
fetch_run = refl
