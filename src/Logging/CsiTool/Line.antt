-- ===== src/Logging/CsiTool/Line.antt =====
-- The EspCsiTool line that a packet gives, and that the formatter writes it whole.
use esp_csi_rs_core.Common.{
  ℕ, zero, suc, min, ap₂, subst, dec_le, take_of_length, ◌+◌, ◌-◌, ◌*◌, ◌/◌, ◌%◌, ◌≤◌, ◌<◌, ◌≡◌,
  refl, sym, ap, ◌∙◌, false, List, [], ◌∷◌, ◌++◌, some, arith, ltb, if◌then◌else◌, length, take,
  length-append, length-take, All, ◌>>=◌, bind_cong, option_cases,
}
use esp_csi_rs_core.Common.Int.{ℤ, IsI8}
use esp_csi_rs_core.Common.Mac.{Mac}
use esp_csi_rs_core.Csi.{CsiDataPacket}
use esp_csi_rs_core.Csi.Packet.{IsPacket}
use esp_csi_rs_core.Logging.{Role, sta, passive}
use esp_csi_rs_core.Logging.{ap as ap_role}
use esp_csi_rs_core.Logging.Encode.{Cursor, put, write_slice, write_i8_sep}
use esp_csi_rs_core.Logging.Encode.Writes.{
  u32_text, i32_text, hex_text, pad6_text, i8_text, Written, write_slice-Written,
  write_slice-append,
}
use esp_csi_rs_core.Logging.Encode.Emits.{
  ◌⨾◌, Emits, ◌⨟◌, put-Emits, write_slice-Emits, digits-Emits, write_u32-Emits, write_i32-Emits,
  write_hex_u8-Emits, write_u32_pad6-Emits, write_i8_sep-Emits,
}
use esp_csi_rs_core.Logging.CsiTool.{
  as_str, csi_data_tag, write_mac, write_values, emit_len, real_time_set, write_head, write_body,
  columns_5_to_14, columns_16_to_22, format_csi_tool_into,
}

abbrev pub mac_text : Mac → List ℕ
mac_text m =
    hex_text m.m0
    ++ 58 ∷ hex_text m.m1
    ++ 58 ∷ hex_text m.m2
    ++ 58 ∷ hex_text m.m3
    ++ 58 ∷ hex_text m.m4
    ++ 58 ∷ hex_text m.m5

abbrev pub values_text : List ℕ → List ℕ
values_text [] = []
values_text (n ∷ ns) = u32_text n ++ 44 ∷ values_text ns

abbrev pub samples_text : List ℤ → List ℕ
samples_text [] = []
samples_text (z ∷ zs) = i8_text z 32 ++ samples_text zs

-- What stands in front of `n` samples.
abbrev pub head_text : Role → ℕ → CsiDataPacket → List ℕ
head_text role n p =
    csi_data_tag
    ++ (as_str role
        ++ (44
            ∷ (mac_text p.mac
                ++ (44
                    ∷ (i32_text p.rssi
                        ++ (44
                            ∷ (values_text (
                                  p.rate ∷ p.sig_mode ∷ p.mcs ∷ p.bandwidth ∷ p.smoothing
                                  ∷ p.not_sounding ∷ p.aggregation ∷ p.stbc ∷ p.fec_coding ∷ p.sgi
                                  ∷ [])
                                ++ (i32_text p.noise_floor
                                    ++ (44
                                        ∷ (values_text (
                                              p.ampdu_cnt ∷ p.channel ∷ p.secondary_channel
                                              ∷ p.timestamp ∷ p.antenna ∷ p.sig_len ∷ p.rx_state
                                              ∷ [])
                                            ++ (u32_text (real_time_set p)
                                                ++ (44
                                                    ∷ (u32_text (p.timestamp / 1000000)
                                                        ++ (46
                                                            ∷ (pad6_text (p.timestamp % 1000000)
                                                            ++ (44
                                                            ∷ (u32_text n
                                                            ++ (44 ∷ (91 ∷ [])))))))))))))))))))

write_mac-Emits : (m : Mac) → Emits 17 (write_mac m) (mac_text m)
unfolding write_mac
write_mac-Emits m =
    write_hex_u8-Emits m.m0
    ⨟ put-Emits 58
    ⨟ write_hex_u8-Emits m.m1
    ⨟ put-Emits 58
    ⨟ write_hex_u8-Emits m.m2
    ⨟ put-Emits 58
    ⨟ write_hex_u8-Emits m.m3
    ⨟ put-Emits 58
    ⨟ write_hex_u8-Emits m.m4
    ⨟ put-Emits 58
    ⨟ write_hex_u8-Emits m.m5

write_values-Emits :
    (ns : List ℕ)
    → All (λ n. n < 4294967296) ns
    → Emits (11 * length ns) (write_values ns) (values_text ns)
unfolding write_values
write_values-Emits [] h = record { writes = λ c. refl; bound = omega arith }
write_values-Emits (n ∷ ns) (h, hs) =
    let e = write_u32-Emits n h ⨟ put-Emits 44 ⨟ write_values-Emits ns hs in
    record { writes = e.writes; bound = omega (arith, e.bound) }

as_str-Emits : (role : Role) → Emits 7 (write_slice (as_str role)) (as_str role)
unfolding as_str
as_str-Emits sta = write_slice-Emits (as_str sta) 7 (omega arith)
as_str-Emits ap_role = write_slice-Emits (as_str ap_role) 7 (omega arith)
as_str-Emits passive = write_slice-Emits (as_str passive) 7 (omega arith)

emit_len_le : (limit : ℕ) (p : CsiDataPacket) → emit_len limit p ≤ length p.csi_data
unfolding emit_len
emit_len_le limit p = ground arith

real_time_set_le : (p : CsiDataPacket) → real_time_set p ≤ 1
real_time_set_le p = option_cases (λ n. n ≤ 1) p.date_time _ _ (λ _. omega arith) (omega arith)

head-Emits :
    (role : Role) (limit : ℕ) (p : CsiDataPacket)
    → IsPacket p
    → Emits 265 (write_head role limit p) (head_text role (emit_len limit p) p)
unfolding write_head
head-Emits role limit p v =
    write_slice-Emits csi_data_tag 9 (omega arith)
    ⨟ as_str-Emits role
    ⨟ put-Emits 44
    ⨟ write_mac-Emits p.mac
    ⨟ put-Emits 44
    ⨟ write_i32-Emits p.rssi v.rssi
    ⨟ put-Emits 44
    ⨟ write_values-Emits (columns_5_to_14 p) (
      v.rate,
      (
        v.sig_mode,
        (
          v.mcs,
          (
            v.bandwidth,
            (v.smoothing, (v.not_sounding, (v.aggregation, (v.stbc, (v.fec_coding, (v.sgi, tt)))))),
          ),
        ),
      ),
    )
    ⨟ write_i32-Emits p.noise_floor v.noise_floor
    ⨟ put-Emits 44
    ⨟ write_values-Emits (columns_16_to_22 p) (
      v.ampdu_cnt,
      (v.channel, (v.secondary_channel, (v.timestamp, (v.antenna, (v.sig_len, (v.rx_state, tt)))))),
    )
    ⨟ digits-Emits 0 (real_time_set p) (omega (arith, real_time_set_le p))
        (omega (arith, real_time_set_le p))
    ⨟ put-Emits 44
    ⨟ digits-Emits 3 (p.timestamp / 1000000) (omega (arith, v.timestamp))
        (omega (arith, v.timestamp))
    ⨟ put-Emits 46
    ⨟ write_u32_pad6-Emits (p.timestamp % 1000000)
    ⨟ put-Emits 44
    ⨟ digits-Emits 2 (emit_len limit p) (omega (arith, emit_len_le limit p, v.fits))
        (omega (arith, emit_len_le limit p, v.fits))
    ⨟ put-Emits 44
    ⨟ put-Emits 91

samples_length : (zs : List ℤ) → All IsI8 zs → length (samples_text zs) ≤ 5 * length zs
samples_length [] h = omega arith
samples_length (z ∷ zs) (h, hs) =
    let e = write_i8_sep-Emits z 32 h in
    omega (arith, length-append (i8_text z 32) (samples_text zs), e.bound, samples_length zs hs)

-- With room for five bytes a sample the loop does not stop early.
body-writes :
    (body_cap : ℕ) (zs : List ℤ) (c : Cursor)
    → All IsI8 zs
    → c.at + 5 * length zs ≤ body_cap
    → body_cap ≤ length c.buf
    → write_body body_cap zs c ≡ write_slice (samples_text zs) c
unfolding write_body write_slice
body-writes body_cap [] c h room le = refl
body-writes body_cap (z ∷ zs) c (h, hs) room le =
    let e = write_i8_sep-Emits z 32 h in
    let stays : ltb body_cap (c.at + 5) ≡ false = ground arith in
    let (d, wrote, w) = write_slice-Written (i8_text z 32) c (omega (arith, e.bound)) in
    ap (λ b. if b then some c else (write_i8_sep z 32 c >>= write_body body_cap zs)) stays
    ∙ ap (λ o. o >>= write_body body_cap zs) (e.writes c ∙ wrote)
    ∙ body-writes body_cap zs d hs (omega (arith, e.bound, w.at)) (omega (arith, w.size))
    ∙ ap (λ o. o >>= write_slice (samples_text zs)) (sym wrote)
    ∙ write_slice-append (i8_text z 32) (samples_text zs) c

All-take : {A : Type 0} (P : A → Type 0) (n : ℕ) (xs : List A) → All P xs → All P (take n xs)
All-take P zero xs h = tt
All-take P (suc n) [] h = tt
All-take P (suc n) (x ∷ xs) (p, h) = (p, All-take P n xs h)

-- The samples that the loop is given, and what is put out.
abbrev taken : ℕ → CsiDataPacket → List ℤ
taken limit p = take (emit_len limit p) p.csi_data

abbrev code_line : Role → ℕ → CsiDataPacket → List ℕ
code_line role limit p =
    head_text role (emit_len limit p) p ++ (samples_text (taken limit p) ++ (93 ∷ 10 ∷ []))

taken_le : (limit : ℕ) (p : CsiDataPacket) → length (taken limit p) ≤ length p.csi_data
taken_le limit p = omega (arith, length-take (emit_len limit p) p.csi_data)

length-code_line :
    (role : Role) (limit : ℕ) (p : CsiDataPacket)
    → IsPacket p
    → length (code_line role limit p) ≤ 267 + 5 * length (taken limit p)
length-code_line role limit p v =
    let e = head-Emits role limit p v in
    omega (
      arith,
      length-append (head_text role (emit_len limit p) p)
          (samples_text (taken limit p) ++ (93 ∷ 10 ∷ [])),
      length-append (samples_text (taken limit p)) (93 ∷ 10 ∷ []),
      e.bound,
      samples_length (taken limit p) (All-take IsI8 (emit_len limit p) p.csi_data v.samples),
    )

abbrev pub start : List ℕ → Cursor
start buf = record { buf = buf; at = 0 }

format-writes :
    (role : Role) (limit : ℕ) (p : CsiDataPacket) (buf : List ℕ)
    → IsPacket p
    → 267 + 5 * length (taken limit p) ≤ length buf
    → format_csi_tool_into role limit p buf ≡ write_slice (code_line role limit p) (start buf)
unfolding format_csi_tool_into ◌⨾◌
format-writes role limit p buf v room =
    let e = head-Emits role limit p v in
    let samples = All-take IsI8 (emit_len limit p) p.csi_data v.samples in
    let (c, wrote, w) =
      write_slice-Written (head_text role (emit_len limit p) p) (start buf)
        (omega (arith, e.bound)) in
    let ends = put-Emits 93 ⨟ put-Emits 10 in
    let rest = write_body (length buf - 2) (taken limit p) ⨾ (put 93 ⨾ put 10) in
    ap (λ o. o >>= rest) (e.writes (start buf) ∙ wrote)
    ∙ ap (λ o. o >>= (put 93 ⨾ put 10))
        (body-writes (length buf - 2) (taken limit p) c samples (omega (arith, e.bound, w.at))
          (omega (arith, w.size)))
    ∙ bind_cong (write_slice (samples_text (taken limit p)) c) _ _ ends.writes
    ∙ write_slice-append (samples_text (taken limit p)) (93 ∷ 10 ∷ []) c
    ∙ ap (λ o. o >>= write_slice (samples_text (taken limit p) ++ (93 ∷ 10 ∷ []))) (sym wrote)
    ∙ write_slice-append (head_text role (emit_len limit p) p) _ (start buf)

code_line_fits :
    (role : Role) (limit : ℕ) (p : CsiDataPacket)
    → IsPacket p
    → length (code_line role limit p) ≤ 3327
code_line_fits role limit p v =
    omega (arith, length-code_line role limit p v, taken_le limit p, v.fits)

-- The samples that a line carries: all where the limit is 0, and else the first up to it.
abbrev pub carried : ℕ → List ℤ → List ℤ
carried zero zs = zs
carried (suc limit) zs = take (suc limit) zs

-- The line of a packet: its columns, the number of samples carried, and those samples.
abbrev pub tool_line : Role → ℕ → CsiDataPacket → List ℕ
tool_line role limit p =
    head_text role (length (carried limit p.csi_data)) p
    ++ (samples_text (carried limit p.csi_data) ++ (93 ∷ 10 ∷ []))

take_all : {A : Type 0} (xs : List A) → take (length xs) xs ≡ xs
take_all [] = refl
take_all (x ∷ xs) = ap (λ l. x ∷ l) (take_all xs)

take-min : {A : Type 0} (n : ℕ) (xs : List A) → take (min (length xs) n) xs ≡ take n xs
take-min n xs = elim (dec_le (length xs) n) [
  | yes l ↦
      let e : min (length xs) n ≡ length xs = omega arith in
      rw e (take_all xs ∙ sym (take_of_length n xs l))
  | no l ↦ let e : min (length xs) n ≡ n = omega arith in rw e refl
]

taken_carried : (limit : ℕ) (p : CsiDataPacket) → taken limit p ≡ carried limit p.csi_data
unfolding emit_len
taken_carried zero p = take_all p.csi_data
taken_carried (suc limit) p =
    let e : emit_len (suc limit) p ≡ min (length p.csi_data) (suc limit) = ground arith in
    ap (λ n. take n p.csi_data) e ∙ take-min (suc limit) p.csi_data

emit_len-carried :
    (limit : ℕ) (p : CsiDataPacket) → emit_len limit p ≡ length (carried limit p.csi_data)
emit_len-carried limit p = omega (
  arith,
  emit_len_le limit p,
  length-take (emit_len limit p) p.csi_data,
  ap length (taken_carried limit p),
)

line_lem :
    (role : Role) (limit : ℕ) (p : CsiDataPacket) → code_line role limit p ≡ tool_line role limit p
line_lem role limit p =
    ap₂ (λ n zs. head_text role n p ++ (samples_text zs ++ (93 ∷ 10 ∷ [])))
      (emit_len-carried limit p) (taken_carried limit p)

pub tool_line_fits :
    (role : Role) (limit : ℕ) (p : CsiDataPacket)
    → IsPacket p
    → length (tool_line role limit p) ≤ 3327
tool_line_fits role limit p v =
    omega (arith, code_line_fits role limit p v, ap length (line_lem role limit p))

pub format_csi_tool_into-Written :
    (role : Role) (limit : ℕ) (p : CsiDataPacket) (buf : List ℕ)
    → IsPacket p
    → 3327 ≤ length buf
    → (e : Cursor) × (format_csi_tool_into role limit p buf ≡ some e)
      × Written (tool_line role limit p) (start buf) e
format_csi_tool_into-Written role limit p buf v room =
    let (e, wrote, w) =
      write_slice-Written (code_line role limit p) (start buf)
        (omega (arith, code_line_fits role limit p v, room)) in
    (
      e,
      format-writes role limit p buf v (omega (arith, taken_le limit p, v.fits, room)) ∙ wrote,
      subst (λ l. Written l (start buf) e) (line_lem role limit p) w,
    )

-- For every well-formed packet, with any limit on the samples and any role, a buffer of 3327 bytes
-- is enough: no write is out of bounds, and the bytes reported are the whole line, with
-- all samples where the limit is 0, and else with as many as there are up to the limit.
pub format_csi_tool_into_lem :
    (role : Role) (limit : ℕ) (p : CsiDataPacket) (buf : List ℕ)
    → IsPacket p
    → 3327 ≤ length buf
    → (e : Cursor) × (format_csi_tool_into role limit p buf ≡ some e)
      × (e.at ≤ 3327)
      × (take e.at e.buf ≡ tool_line role limit p)
format_csi_tool_into_lem role limit p buf v room =
    let (e, wrote, w) = format_csi_tool_into-Written role limit p buf v room in
    (e, wrote, omega (arith, w.at, tool_line_fits role limit p v), w.text)
