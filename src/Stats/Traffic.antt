-- ===== src/Stats/Traffic.antt =====
-- `network_watch` of the statistics client: the counters of an interface, and the history of what it
-- carried. The counters that glibtop reads are an argument.
pub mod History
use g15daemon.Prelude.{
  ℕ, zero, suc, ◌+◌, ◌-◌, ◌%◌, ◌^◌, ◌≤◌, ◌<◌, ◌≡◌, ◌≢◌, refl, Bool, true, false, ltb, ◌!=◌,
  if◌then◌else◌, List, [], ◌∷◌, arith, Run, ok, fault, Returns, returns, Returns-bind, ◌>>=◌,
  ==-eq_true, !=-eq_true, ◌==◌,
}
use g15daemon.Stats.{write_at, negative}
use g15daemon.Stats.Arrays.{length, Written, write_at-Written}

pub record Load : Type 0 where
  pub bytes_in : ℕ
  pub bytes_out : ℕ

-- The variables; `i` and `previous_*` are local.
pub record Traffic : Type 0 where
  pub i : ℕ
  pub previous_in : ℕ
  pub previous_out : ℕ
  pub net_hist : List Load
  pub net_cur_in : ℕ
  pub net_cur_out : ℕ
  pub net_max_in : ℕ
  pub net_max_out : ℕ
  pub net_rr_index : ℕ

-- `MAX_NET_HIST`
abbrev pub max_net_hist : ℕ
max_net_hist = 107

abbrev pub maxi : ℕ → ℕ → ℕ
maxi a b = if ltb b a then a else b

-- An int as an unsigned long.
abbrev pub ulong : ℕ → ℕ
ulong n = if negative n then n + (2 ^ 64 - 2 ^ 32) else n

-- The loop over the history; `max_in` and `max_out` are ints.
abbrev pub max_loop : (Load → ℕ) → List Load → (max : ℕ) → ℕ
max_loop field [] max = max
max_loop field (h ∷ hs) max = max_loop field hs (maxi (ulong max) (field h) % 2 ^ 32)

abbrev pub ulong_sub : ℕ → ℕ → ℕ
ulong_sub a b = (a + (2 ^ 64 - b)) % 2 ^ 64

-- The part of a round where there are counters from before.
abbrev pub record_load : (net_scale_absolute : Bool) → Load → Traffic → Run Traffic
record_load net_scale_absolute load t =
    let cur_in = ulong_sub load.bytes_in t.previous_in in
    let cur_out = ulong_sub load.bytes_out t.previous_out in
    write_at t.net_hist t.i (record { bytes_in = cur_in % 2 ^ 32; bytes_out = cur_out % 2 ^ 32 })
    >>= λ hist. ok (record t {
      i = if ltb max_net_hist (t.i + 1) then 0 else t.i + 1;
      net_hist = hist;
      net_cur_in = cur_in;
      net_cur_out = cur_out;
      net_max_in =
          if net_scale_absolute
          then maxi t.net_max_in cur_in
          else ulong (max_loop (λ h. h.bytes_in) hist 0);
      net_max_out =
          if net_scale_absolute
          then maxi t.net_max_out cur_out
          else ulong (max_loop (λ h. h.bytes_out) hist 0);
      net_rr_index = t.i;
    })

-- A round of the loop.
unfoldable pub network_round : (net_scale_absolute : Bool) → Load → Traffic → Run Traffic
network_round net_scale_absolute load t =
    (if (t.previous_in + t.previous_out) % 2 ^ 64 != 0
      then record_load net_scale_absolute load t
      else ok t)
    >>= λ t'. ok (record t' { previous_in = load.bytes_in; previous_out = load.bytes_out })

-- The rounds, each with what `net_scale_absolute` and the counters then are.
unfoldable pub network_loop : List (Bool × Load) → Traffic → Run Traffic
network_loop [] t = ok t
network_loop ((absolute, load) ∷ rounds) t =
    network_round absolute load t >>= λ t'. network_loop rounds t'

-- The sum of the address of the interface, and `i` behind it: the loop counts with the `i` that the
-- rounds go on from.
unfoldable pub mac_loop : (hwaddress : List ℕ) → (i mac : ℕ) → ℕ × ℕ
mac_loop [] i mac = (i, mac)
mac_loop (byte ∷ bytes) i mac = mac_loop bytes (i + 1) (mac + byte)

-- What the thread leaves: whether `have_nic` is switched off, and the variables.
pub record Watched : Type 0 where
  pub no_nic : Bool
  pub traffic : Traffic

-- The thread, with the eight bytes of `netload.hwaddress`; the variables are those before its start.
unfoldable pub network_watch : (hwaddress : List ℕ) → List (Bool × Load) → Traffic → Run Watched
network_watch hwaddress rounds t =
    let counted = mac_loop hwaddress 0 0 in
    if counted.1 == 0
    then ok (record { no_nic = true; traffic = t })
    else (network_loop rounds (record t { i = counted.0 }) >>= λ t'.
        ok (record { no_nic = false; traffic = t' }))
