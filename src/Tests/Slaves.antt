-- ===== src/Tests/Slaves.antt =====
-- A slave that the fast scan finds.
use canopen_asyncio.Common.Bytes.{from_le-le_bytes, from_le, le_bytes, Bytes}
use canopen_asyncio.Common.Monad.{ok}
use canopen_asyncio.Lss.Scan.{fast_scan-identity}
use canopen_asyncio.Lss.Slave.{confirms, IsSlave, scan_frame}
use canopen_asyncio.Lss.{fast_scan, cs_identify_slave, Bus, LssMaster}
use canopen_asyncio.Common.{
  ne→==, ==_refl, if◌then◌else◌, ℕ, ◌<◌, ◌^◌, ◌≡◌, refl, arith, [], ◌∷◌, ◌==◌, ◌&&◌, some,
  replicate,
}

abbrev ident : ℕ → ℕ
ident i = if i == 0 then 0x319 else if i == 1 then 7 else if i == 2 then 0x10002 else 0xDEADBEEF

ident-lt : (i : ℕ) → ident i < 2 ^ 32
ident-lt i = ground arith

abbrev yes_frame : Bytes
yes_frame = cs_identify_slave ∷ replicate 7 0

abbrev moved_part : ℕ → ℕ → ℕ → ℕ → ℕ
moved_part e id_number bit lss_next =
    if bit == 0 && confirms (ident e) id_number bit then lss_next else e

-- The bus, whose state is the part that the slave is at.
abbrev slave_bus : Bus ℕ
slave_bus (cs ∷ a ∷ b ∷ c ∷ d ∷ bit ∷ lss_sub ∷ lss_next ∷ []) e =
    let id_number = from_le (a ∷ b ∷ c ∷ d ∷ []) in
    if bit == 128
    then (yes_frame ∷ [], 0)
    else if lss_sub == e
    then (
      (if confirms (ident e) id_number bit then yes_frame ∷ [] else []),
      moved_part e id_number bit lss_next,
    )
    else ([], e)
slave_bus _ e = ([], e)

slave_bus-answers :
    (e id_number bit lss_next : ℕ)
    → id_number < 2 ^ 32
    → bit < 32
    → slave_bus (scan_frame id_number bit e lss_next) e ≡ (
      (if confirms (ident e) id_number bit then yes_frame ∷ [] else []),
      moved_part e id_number bit lss_next,
    )
unfolding le_bytes
slave_bus-answers e id_number bit lss_next hid hb =
    let read_back = from_le-le_bytes 4 id_number hid in
    rw (read_back, ne→== bit 128 (λ h. absurd (omega arith)), ==_refl e)

slave_bus-starts : (e : ℕ) → slave_bus (scan_frame 0 128 0 0) e ≡ (yes_frame ∷ [], 0)
unfolding le_bytes
slave_bus-starts e = refl

abbrev slave_on_bus : IsSlave slave_bus ident (λ e. e)
slave_on_bus = record {
  answer = replicate 7 0;
  restarted = λ e. 0;
  starts = slave_bus-starts;
  starts_part = λ e. refl;
  asked = moved_part;
  answers = slave_bus-answers;
  answers_part = λ e id_number bit lss_next hid hb. refl;
}

fast_scan-identity_example :
    (m' : LssMaster ℕ) × (fast_scan slave_bus (record { env = 3; responses = [] })
      ≡ (ok (some (0x319 ∷ 7 ∷ 0x10002 ∷ 0xDEADBEEF ∷ [])), m'))
fast_scan-identity_example =
    fast_scan-identity slave_bus ident (λ e. e) slave_on_bus (record { env = 3; responses = [] })
      ident-lt
