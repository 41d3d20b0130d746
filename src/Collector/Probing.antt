-- ===== src/Collector/Probing.antt =====
-- `probeHTTP` of probe.go: the loop of attempts. What the HTTP client answers at each attempt, and
-- whether the context ends in the wait after it, is an argument.
pub mod Patience
pub mod Attempts
mod Tests
use amarre.Base.{
  concat, ℕ, zero, suc, ◌+◌, Bool, true, false, not, ◌&&◌, ◌||◌, String, Option, none, some, [],
  ◌∷◌, ltb, if◌then◌else◌, str_eq, ℤ, pos, neg_part, pos_part, ltb_ℤ, is_zero_ℤ, Time, Duration,
}
use amarre.Config.{HostConfig}
use amarre.Collector.Sante.{Probe, itoa}

-- `NewRequestWithContext` failed, `client.Do` failed, or there is a response, with the end of its
-- certificate where it has one.
pub data Reply : Type 0 where
  no_request : String → Reply
  failed : Duration → String → Reply
  answered : Duration → ℤ → Option Time → Reply

pub record Try : Type 0 where
  pub reply : Reply
  pub cancelled : Bool

abbrev pub probe_attempts : ℕ
probe_attempts = 3

abbrev pub equal_ℤ : ℤ → ℤ → Bool
equal_ℤ a b = not (ltb_ℤ a b) && not (ltb_ℤ b a)

-- `resp.StatusCode == want || (want == 200 && resp.StatusCode < 400)`
abbrev pub accepts : ℤ → ℤ → Bool
accepts want status = equal_ℤ status want || (equal_ℤ want (pos 200) && ltb_ℤ status (pos 400))

abbrev pub expiry_or : Option Time → Time → Time
expiry_or none old = old
expiry_or (some t) old = t

-- The body of the loop up to the wait: the probe, and whether it is returned.
unfoldable pub attempt : ℤ → ℕ → Reply → Probe → Probe × Bool
attempt want i (no_request e) p = (record p { attempts = i; error = e }, true)
attempt want i (failed l e) p = (record p { attempts = i; latency = l; error = e }, false)
attempt want i (answered l status cert) p =
    let q = record p {
      attempts = i;
      latency = l;
      status = status;
      cert_expiry = expiry_or cert p.cert_expiry;
    } in
    if accepts want status then (record q { up = true; error = "" }, true) else (
      record q { error = concat ("code " ∷ itoa status ∷ ", attendu " ∷ itoa want ∷ []) },
      false,
    )

-- Whether the loop stops after attempt `i`: the probe is returned, or the context ended.
abbrev pub stops : Bool → ℕ → Try → Bool
stops returned i t = returned || (ltb i probe_attempts && t.cancelled)

-- The loop from attempt `i`, with the attempts that are left.
unfoldable pub probe_loop : ℕ → ℤ → ℕ → (ℕ → Try) → Probe → Probe
unfolding attempt
probe_loop zero want i tries p = p
probe_loop (suc left) want i tries p =
    let a = attempt want i (tries i).reply p in
    let rest = probe_loop left want (i + 1) tries a.0 in if stops a.1 i (tries i) then a.0 else rest

abbrev pub want_of : HostConfig → ℤ
want_of h = if is_zero_ℤ h.http_expect then pos 200 else h.http_expect

abbrev pub new_probe : HostConfig → Time → Probe
new_probe h now = record {
  url = h.http_check;
  up = false;
  status = pos 0;
  latency = pos 0;
  attempts = 0;
  error = "";
  checked_at = now;
  cert_expiry = 0;
}

unfoldable pub probe_http : HostConfig → Time → (ℕ → Try) → Option Probe
unfolding probe_loop
probe_http h now tries =
    if str_eq h.http_check ""
    then none
    else some (probe_loop probe_attempts (want_of h) 1 tries (new_probe h now))
