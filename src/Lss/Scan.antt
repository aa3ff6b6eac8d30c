-- ===== src/Lss/Scan.antt =====
-- The fast scan of the LSS master with one slave on the bus (canopen/lss.py).
use canopen_asyncio.Common.Monad.{ok, Result, >>=-ok}
use canopen_asyncio.Lss.Slave.{message-started, message-answered, confirms, IsSlave}
use canopen_asyncio.Lss.Upper.{next_upper, upper-all, upper-zero, upper_le, upper}
use canopen_asyncio.Lss.{fast_scan, scan_parts, scan_bits, send_fast_scan_message, Bus, LssMaster}
use canopen_asyncio.Common.{
  some, ◌∙◌, ap, sym, bit_or, if◌then◌else◌, ℕ, zero, suc, ◌+◌, ◌%◌, ◌^◌, ◌<◌, ◌≤◌, ◌≡◌, refl,
  arith, List, [], ◌∷◌, true,
}

module _ {E : Type 0} (bus : Bus E) (ident : ℕ → ℕ) (part : E → ℕ)
    (slave : IsSlave bus ident part) where
  -- A result with the state that it leaves, where the slave is at a part.
  abbrev pub Finds : {A : Type 0} → A → ℕ → Result A × LssMaster E → Type 0
  Finds a k out = (m' : LssMaster E) × (out ≡ (ok a, m')) × (part m'.env ≡ k)

  stays :
      (e : E) (k id_number bit : ℕ)
      → part e ≡ k
      → id_number < 2 ^ 32
      → bit < 32
      → part (slave.asked e id_number bit k) ≡ k
  stays e k id_number bit here hid h = ground (arith, slave.answers_part e id_number bit k hid h)

  message-at :
      (m : LssMaster E) (k id_number bit lss_next : ℕ)
      → part m.env ≡ k
      → id_number < 2 ^ 32
      → bit < 32
      → send_fast_scan_message bus id_number bit k lss_next m ≡ (
        ok (confirms (ident k) id_number bit),
        record { env = slave.asked m.env id_number bit lss_next; responses = [] },
      )
  message-at m k id_number bit lss_next here hid hb =
      ground (arith, message-answered bus ident part slave m id_number bit lss_next hid hb)

  scan_bits-Finds :
      (bits : ℕ) (m : LssMaster E) (k : ℕ)
      → part m.env ≡ k
      → bits ≤ 32
      → ident k < 2 ^ 32
      → Finds (ident k) k (scan_bits bus bits (upper (ident k) bits) k k m)
  unfolding scan_bits
  scan_bits-Finds zero m k here hb hi = (m, ap (λ n. (ok n, m)) (upper-zero (ident k)), here)
  scan_bits-Finds (suc bit) m k here hb hi =
      let id_number = upper (ident k) (suc bit) in
      let asked =
        message-at m k id_number bit k here (omega (arith, upper_le (ident k) (suc bit)))
          (omega arith) in
      let m1 : LssMaster E = record { env = slave.asked m.env id_number bit k; responses = [] } in
      let (m', run, there) =
        scan_bits-Finds bit m1 k
          (stays m.env k id_number bit here (omega (arith, upper_le (ident k) (suc bit)))
            (omega arith))
          (omega arith) hi in
      (
        m',
        >>=-ok (send_fast_scan_message bus id_number bit k k)
              (λ confirmed.
                scan_bits bus bit (if confirmed then id_number else bit_or id_number (2 ^ bit)) k k)
              m asked
            ∙ ap (λ n. scan_bits bus bit n k k m1) (next_upper (ident k) bit)
            ∙ run,
        there,
      )

  -- The parts of the identity from part `k` on.
  unfoldable pub parts_from : ℕ → ℕ → List ℕ
  parts_from zero k = []
  parts_from (suc parts) k = ident k ∷ parts_from parts (k + 1)

  confirmed-part :
      (m : LssMaster E) (k lss_next : ℕ)
      → part m.env ≡ k
      → ident k < 2 ^ 32
      → Finds true lss_next (send_fast_scan_message bus (ident k) 0 k lss_next m)
  unfolding confirms
  confirmed-part m k lss_next here hi = (
    record { env = slave.asked m.env (ident k) 0 lss_next; responses = [] },
    ground (arith, message-at m k (ident k) 0 lss_next here hi (omega arith)),
    ground (arith, slave.answers_part m.env (ident k) 0 lss_next hi (omega arith)),
  )

  -- One round of the outer loop.
  scan_part :
      (parts : ℕ) (m : LssMaster E) (k : ℕ)
      → part m.env ≡ k
      → ident k < 2 ^ 32
      → (ids : List ℕ)
      → ((n : LssMaster E)
          → part n.env ≡ (k + 1) % 4
          → (m' : LssMaster E) × (scan_parts bus parts (k + 1) ((k + 1) % 4) n
              ≡ (ok (some ids), m')))
      → (m' : LssMaster E) × (scan_parts bus (suc parts) k k m ≡ (ok (some (ident k ∷ ids)), m'))
  unfolding scan_parts
  scan_part parts m k here hi ids rest =
      let (m1, inner, at1) = scan_bits-Finds 32 m k here (omega arith) hi in
      let inner0 : scan_bits bus 32 0 k k m ≡ (ok (ident k), m1) =
        ap (λ n. scan_bits bus 32 n k k m) (sym (upper-all (ident k) hi)) ∙ inner in
      let (m2, found, at2) = confirmed-part m1 k ((k + 1) % 4) at1 hi in
      let (m3, onward) = rest m2 at2 in (m3, ground (arith, inner0, found, onward))

  scan_parts-Finds :
      (parts : ℕ) (m : LssMaster E) (k : ℕ)
      → k + parts ≡ 4
      → part m.env ≡ k
      → ((i : ℕ) → ident i < 2 ^ 32)
      → (m' : LssMaster E) × (scan_parts bus parts k k m ≡ (ok (some (parts_from parts k)), m'))
  unfolding parts_from scan_parts
  scan_parts-Finds zero m k h here hi = (m, refl)
  scan_parts-Finds (suc zero) m k h here hi = scan_part 0 m k here (hi k) [] (λ n e. (n, refl))
  scan_parts-Finds (suc (suc parts)) m k h here hi =
      let next : (k + 1) % 4 ≡ k + 1 = omega arith in
      scan_part (suc parts) m k here (hi k) (parts_from (suc parts) (k + 1)) (λ n e.
        let (m', run) = scan_parts-Finds (suc parts) n (k + 1) (omega arith) (e ∙ next) hi in
        (m', ap (λ j. scan_parts bus (suc parts) (k + 1) j n) next ∙ run))

  -- With one conforming slave on the bus that is not configured, the fast scan returns, and finds the
  -- four numbers of its identity: vendor, product, revision and serial number, of 32 bits each.
  pub fast_scan-identity :
      (m : LssMaster E)
      → ((i : ℕ) → ident i < 2 ^ 32)
      → (m' : LssMaster E) × (fast_scan bus m
          ≡ (ok (some (ident 0 ∷ ident 1 ∷ ident 2 ∷ ident 3 ∷ [])), m'))
  unfolding fast_scan parts_from
  fast_scan-identity m hi =
      let m1 : LssMaster E = record { env = slave.restarted m.env; responses = [] } in
      let (m', run) = scan_parts-Finds 4 m1 0 refl (slave.starts_part m.env) hi in
      (m', ground (arith, message-started bus ident part slave m, run))
