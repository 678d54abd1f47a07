-- ===== src/Config/Loader/ProfileMap.antt =====
-- What becomes of the profiles of the setting.
use scan2graph.Prelude.{
  ◌≡◌, ◌≢◌, refl, false, [], ◌∷◌, none, some, Str, is_empty, Unicode, str_eq, str_eq_iff,
  str_eq_refl, arith, Bool-cases, Option-cases, inl, inr,
}
use scan2graph.Prelude.Dict.{Dict, lookup, put, lookup-put}
use scan2graph.Jobs.Types.{Capabilities}
use scan2graph.Config.Types.{Config}
use scan2graph.Config.Address.{normalize_address, profile}
use scan2graph.Config.Loader.{Fault, key_fault, collect, profiles}

collect-keeps :
    (u : Unicode) (raw out : Dict Capabilities) (j : Str) {cp : Capabilities}
    → lookup j out ≡ some cp
    → lookup j (collect u raw out).0 ≡ some cp
unfolding collect key_fault
collect-keeps u [] out j h = h
collect-keeps u ((k, c) ∷ raw) out j h = collect-keeps u raw _ j (
    ground
      (arith, lookup-put (normalize_address u k) j c out, str_eq_iff (normalize_address u k) j))

key_fault-none :
    (u : Unicode) (out : Dict Capabilities) (k : Str) (cp : Capabilities)
    → key_fault u out k cp ≡ none
    → is_empty (normalize_address u k) ≡ false
unfolding key_fault
key_fault-none u out k cp h = ground arith

collect-faulty :
    (u : Unicode) (raw out : Dict Capabilities) (j : Str) (c : Capabilities) {f : Fault}
    → key_fault u out j c ≡ some f
    → (collect u ((j, c) ∷ raw) out).1 ≢ []
unfolding collect
collect-faulty u raw out j c e fine = ground arith

collect-step :
    (u : Unicode) (raw out : Dict Capabilities) (j : Str) (c : Capabilities)
    → key_fault u out j c ≡ none
    → collect u ((j, c) ∷ raw) out ≡ collect u raw (put (normalize_address u j) c out)
unfolding collect
collect-step u raw out j c e = simp (e, collect) refl

collect-finds :
    (u : Unicode) (raw out : Dict Capabilities) (k : Str) {cp : Capabilities}
    → lookup k raw ≡ some cp
    → (collect u raw out).1 ≡ []
    → (lookup (normalize_address u k) (collect u raw out).0 ≡ some cp)
      × (is_empty (normalize_address u k) ≡ false)
unfolding lookup
collect-finds u [] out k h fine = cc
collect-finds u ((j, c) ∷ raw) out k {cp} h fine = elim (Option-cases (key_fault u out j c)) [
  | inr (f, e) ↦ absurd (collect-faulty u raw out j c e fine)
  | inl e ↦
      let step = collect-step u raw out j c e in
      elim (Bool-cases (str_eq j k)) [
        | inr n ↦ rw step (
            collect-finds u raw (put (normalize_address u j) c out) k (rw n at h) (rw step at fine))
        | inl s ↦
            let same : j ≡ k = (str_eq_iff j k).0 s in
            let there : some c ≡ some cp = rw s at h in
            let value : c ≡ cp = cc in
            rw step (
              rw (← same, ← value)
                (
                  collect-keeps u raw (put (normalize_address u j) c out) (normalize_address u j) (
                      ground (
                        arith,
                        lookup-put (normalize_address u j) (normalize_address u j) c out,
                        str_eq_refl (normalize_address u j),
                      )),
                  key_fault-none u out j c e,
                ))
      ]
]

lookup-is_empty :
    (k : Str) (m : Dict Capabilities) {cp : Capabilities}
    → lookup k m ≡ some cp
    → is_empty m ≡ false
unfolding lookup
lookup-is_empty k [] h = cc
lookup-is_empty k ((j, c) ∷ m) h = refl

-- If profiles notes no error, every key of the setting keeps its capabilities: a sender who spells
-- his address so that it normalizes to what the key normalizes to has the profile of that key.
pub profiles-profile :
    (u : Unicode) (cfg : Config) (raw : Dict Capabilities) (k sender : Str) (cp : Capabilities)
    → cfg.profiles ≡ (profiles u (some raw)).0
    → (profiles u (some raw)).1 ≡ []
    → lookup k raw ≡ some cp
    → normalize_address u sender ≡ normalize_address u k
    → profile u cfg sender ≡ some cp
unfolding profiles profile
profiles-profile u cfg raw k sender cp loaded fine found same =
    let (here, real) = collect-finds u raw [] k found fine in
    let some_profile = lookup-is_empty (normalize_address u k) (collect u raw []).0 here in
    rw same (rw (real, loaded, some_profile) here)
