-- ===== src/Pki/Certificate/Writers.antt =====
-- The calls that write the fields of a certificate of tools/gen_hawk_pki.c, as writers that are put in
-- a row.
use assessing_pq_mqtt_m_tls.Common.{
  ◌>>=◌, ℕ, ◌+◌, ◌≤◌, ◌≡◌, ap, ◌∙◌, List, [], ◌∷◌, ◌++◌, Option, some, Bool, length, arith,
  length-append, append_assoc,
}
use assessing_pq_mqtt_m_tls.Pki.Der.{tlv, enc_len, integer_small, integer_bytes, buf_cap}
use assessing_pq_mqtt_m_tls.Pki.Der.Written.{element}
use assessing_pq_mqtt_m_tls.Pki.Der.Fits.{tlv_fits, length-element, length-integer_bytes}
use assessing_pq_mqtt_m_tls.Pki.Certificate.{Tm, alg_id, name_cn, validity, spki, v3_extensions}
use assessing_pq_mqtt_m_tls.Pki.Certificate.Key.{hawk_algorithm}
use assessing_pq_mqtt_m_tls.Pki.Certificate.Encoded.{
  alg_id_fits, name, length-name, name_cn_fits, period, length-period, validity_fits, key_info,
  length-key_info, spki_fits, extensions, length-extensions, v3_extensions_fits,
}
use assessing_pq_mqtt_m_tls.Pki.Certificate.Fields.{version_field}

-- A writer that appends `e`, of at most `n` bytes, wherever the buffer has room for `n` more.
pub record Writes (w : List ℕ → Option (List ℕ)) (e : List ℕ) (n : ℕ) : Type 0 where
  pub small : length e ≤ n
  pub fits : (out : List ℕ) → length out + n ≤ buf_cap → w out ≡ some (out ++ e)

pub then-Writes :
    {w v : List ℕ → Option (List ℕ)} {e f : List ℕ} {m n : ℕ}
    → Writes w e m
    → Writes v f n
    → Writes (λ out. w out >>= v) (e ++ f) (m + n)
then-Writes {v = v} {e} {f} {m} {n} p q = record {
  small = omega (arith, length-append e f, p.small, q.small);
  fits = λ out h. rw (p.fits out (omega arith)) (
      q.fits (out ++ e) (omega (arith, length-append out e, p.small))
      ∙ ap some (append_assoc out e f));
}

abbrev pub algorithm_field : List ℕ
algorithm_field = element 0x30 hawk_algorithm

abbrev pub serial_field : ℕ → List ℕ
serial_field serial = element 0x02 (integer_bytes serial)

pub version-Writes : Writes (λ out. tlv out 0xa0 (element 0x02 (0x02 ∷ []))) version_field 9
unfolding enc_len
version-Writes = record {
  small = omega arith;
  fits = λ out h. tlv_fits out 0xa0 (element 0x02 (0x02 ∷ [])) (omega arith);
}

pub serial-Writes : (serial : ℕ) → Writes (λ out. integer_small out serial) (serial_field serial) 7
unfolding integer_small
serial-Writes serial =
    let l = length-integer_bytes serial in
    record {
      small = omega (arith, (length-element 0x02 (integer_bytes serial)).0);
      fits = λ out h. tlv_fits out 0x02 (integer_bytes serial) (omega arith);
    }

pub algorithm-Writes : Writes alg_id algorithm_field 18
algorithm-Writes = record { small = unfold enc_len in omega arith; fits = alg_id_fits }

pub name-Writes : (cn : List ℕ) → Writes (λ out. name_cn out cn) (name cn) (length cn + 30)
name-Writes cn = record {
  small = omega (arith, (length-name cn).3);
  fits = λ out h. name_cn_fits out cn (omega arith);
}

pub key-Writes :
    (public : List ℕ) → Writes (λ out. spki out public) (key_info public) (length public + 30)
key-Writes public = record {
  small = omega (arith, (length-key_info public).1);
  fits = λ out h. spki_fits out public (omega arith);
}

pub extensions-Writes :
    (is_ca is_server : Bool)
    → Writes (λ out. v3_extensions out is_ca is_server) (extensions is_ca is_server) 150
extensions-Writes is_ca is_server = record {
  small = omega (arith, length-extensions is_ca is_server);
  fits = λ out h. v3_extensions_fits out is_ca is_server h;
}

module _ (gmtime : ℕ → Tm) (sign : List ℕ → List ℕ → Option (List ℕ)) where
  pub period-Writes :
      (nb na : ℕ) → Writes (λ out. validity gmtime sign out nb na) (period gmtime sign nb na) 40
  period-Writes nb na = record {
    small = omega (arith, length-period gmtime sign nb na);
    fits = λ out h. validity_fits gmtime sign out nb na h;
  }
