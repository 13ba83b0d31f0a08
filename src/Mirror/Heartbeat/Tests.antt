-- ===== src/Mirror/Heartbeat/Tests.antt =====
-- internal/mirror/heartbeat.go: a heartbeat from one cluster to another.
use gomm.Prelude.{◌≡◌, refl, [], ◌∷◌, codes}
use gomm.Types.Codec.{put_string, put_uint, heartbeat_key}
use gomm.Policy.{new_default_policy}
use gomm.Mirror.Heartbeat.{heartbeat_record}

beat :
    (heartbeat_record (new_default_policy (codes ".")) (codes "u") (codes "e") 258).key
    ≡ 0 ∷ 1 ∷ 117 ∷ 0 ∷ 1 ∷ 101 ∷ []
unfolding heartbeat_record heartbeat_key put_string put_uint
beat = refl
