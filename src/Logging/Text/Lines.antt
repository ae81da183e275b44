-- ===== src/Logging/Text/Lines.antt =====
-- The lines of the metadata are few and short.
use esp_csi_rs_core.Common.{
  ℕ, zero, suc, ◌+◌, ◌-◌, ◌*◌, ◌≤◌, ◌<◌, refl, List, [], ◌∷◌, ◌++◌, map, arith, ltb, length,
  replicate, length-append, length-replicate, All, All-append, if_cases, option_cases,
}
use esp_csi_rs_core.Common.Int.{ℤ, pos, negsuc}
use esp_csi_rs_core.Common.Mac.{Mac}
use esp_csi_rs_core.Time.{DateTime}
use esp_csi_rs_core.Csi.{CsiDataPacket}
use esp_csi_rs_core.Logging.Encode.Digits.{decimal, length-decimal}
use esp_csi_rs_core.Logging.ArrayList.{display}
use esp_csi_rs_core.Logging.ArrayList.Pieces.{
  whole, Writes, IsPiece, digits_few, ◌⨠◌, Written-nil, join_pieces, write_once-Writes,
  write_fmt-Writes,
}
use esp_csi_rs_core.Logging.Text.{
  display_padded, display_02x_upper, crlf, field, date_line, mac_line, date_lines, rows,
  field_lines, raw_label, write_lines, write_metadata,
}

-- At most `n` pieces, each of which is short.
pub record Short (n : ℕ) (l : List (List ℕ)) : Type 0 where
  pub few : All IsPiece l
  pub count : length l ≤ n

module _ {m n : ℕ} {xs ys : List (List ℕ)} where
  infixr 4 ◌⧺◌
  ◌⧺◌ : Short m xs → Short n ys → Short (m + n) (xs ++ ys)
  a ⧺ b = record {
    few = All-append IsPiece xs ys a.few b.few;
    count = omega (arith, length-append xs ys, a.count, b.count);
  }

piece : (s : List ℕ) → IsPiece s → Short 1 (s ∷ [])
piece s h = record { few = (h, tt); count = omega arith }

display-Short : (z : ℤ) → Short 2 (display z)
display-Short (pos n) = record { few = (digits_few n, tt); count = omega arith }
display-Short (negsuc n) = record {
  few = (omega arith, (digits_few (n + 1), tt));
  count = omega arith;
}

field-Short : (label : List ℕ) (z : ℤ) → IsPiece label → Short 4 (field label z)
field-Short label z h = piece label h ⧺ display-Short z ⧺ piece crlf (omega arith)

zeros_few : (n : ℕ) → All IsPiece (replicate n (48 ∷ []))
zeros_few zero = tt
zeros_few (suc n) = (omega arith, zeros_few n)

padded-Short : (w n : ℕ) → 0 < w → Short w (display_padded w n)
padded-Short w n h =
    let (one, most) = length-decimal 19 n in
    let zeros = replicate (w - length (decimal 19 n)) (48 ∷ []) in
    record {
      few = All-append IsPiece zeros (decimal 19 n ∷ []) (zeros_few _) (omega (arith, most), tt);
      count = omega (
        arith,
        one,
        length-append zeros (decimal 19 n ∷ []),
        length-replicate {A = List ℕ} (w - length (decimal 19 n)) (48 ∷ []),
      );
    }

byte-Short : (b : ℕ) → Short 2 (display_02x_upper b)
byte-Short b =
    if_cases (Short 2) (ltb b 16) _ _
      (record { few = (omega arith, (omega arith, tt)); count = omega arith })
      (record { few = (omega arith, tt); count = omega arith })

mark : (b : ℕ) → Short 1 ((b ∷ []) ∷ [])
mark b = piece (b ∷ []) (omega arith)

date_line-Short : (d : DateTime) → Short 25 (date_line d)
date_line-Short d =
    piece _ (omega arith)
    ⧺ padded-Short 4 d.year (omega arith)
    ⧺ mark 45
    ⧺ padded-Short 2 d.month (omega arith)
    ⧺ mark 45
    ⧺ padded-Short 2 d.day (omega arith)
    ⧺ mark 32
    ⧺ padded-Short 2 d.hour (omega arith)
    ⧺ mark 58
    ⧺ padded-Short 2 d.minute (omega arith)
    ⧺ mark 58
    ⧺ padded-Short 2 d.second (omega arith)
    ⧺ mark 46
    ⧺ padded-Short 3 d.millisecond (omega arith)
    ⧺ piece crlf (omega arith)

mac_line-Short : (m : Mac) → Short 19 (mac_line m)
mac_line-Short m =
    piece _ (omega arith)
    ⧺ byte-Short m.m0
    ⧺ mark 58
    ⧺ byte-Short m.m1
    ⧺ mark 58
    ⧺ byte-Short m.m2
    ⧺ mark 58
    ⧺ byte-Short m.m3
    ⧺ mark 58
    ⧺ byte-Short m.m4
    ⧺ mark 58
    ⧺ byte-Short m.m5
    ⧺ piece crlf (omega arith)

abbrev pub lines_text : List (List (List ℕ)) → List ℕ
lines_text ls = join_pieces (map join_pieces ls)

pub write_lines-Writes :
    (ls : List (List (List ℕ))) → All (All IsPiece) ls → Writes (write_lines ls) (lines_text ls)
unfolding write_lines
write_lines-Writes [] h = λ c k. whole c refl (Written-nil c) k
write_lines-Writes (l ∷ ls) (h, hs) = write_fmt-Writes l h ⨠ write_lines-Writes ls hs

pieces_length : (ss : List (List ℕ)) → All IsPiece ss → length (join_pieces ss) ≤ 22 * length ss
pieces_length [] h = omega arith
pieces_length (s ∷ ss) (h, hs) =
    omega (arith, h, length-append s (join_pieces ss), pieces_length ss hs)

length-line : (n : ℕ) (l : List (List ℕ)) → Short n l → length (join_pieces l) ≤ 22 * n
length-line n l s = omega (arith, pieces_length l s.few, s.count)

pub lines_few : (n : ℕ) (ls : List (List (List ℕ))) → All (Short n) ls → All (All IsPiece) ls
lines_few n [] h = tt
lines_few n (l ∷ ls) (s, h) = (s.few, lines_few n ls h)

length-lines :
    (ls : List (List (List ℕ))) → All (Short 4) ls → length (lines_text ls) ≤ 88 * length ls
length-lines [] h = omega arith
length-lines (l ∷ ls) (s, h) =
    omega
      (arith, length-append (join_pieces l) (lines_text ls), length-line 4 l s, length-lines ls h)

field_lines-Short :
    (rs : List (List ℕ × ℤ)) → All (λ r. IsPiece r.0) rs → All (Short 4) (field_lines rs)
field_lines-Short [] h = tt
field_lines-Short ((label, z) ∷ rs) (h, hs) = (field-Short label z h, field_lines-Short rs hs)

rows-Short : (p : CsiDataPacket) → All (Short 4) (field_lines (rows p))
rows-Short p = field_lines-Short (rows p) (
  omega arith,
  (
    omega arith,
    (
      omega arith,
      (
        omega arith,
        (
          omega arith,
          (
            omega arith,
            (
              omega arith,
              (
                omega arith,
                (
                  omega arith,
                  (
                    omega arith,
                    (
                      omega arith,
                      (
                        omega arith,
                        (
                          omega arith,
                          (
                            omega arith,
                            (
                              omega arith,
                              (
                                omega arith,
                                (
                                  omega arith,
                                  (
                                    omega arith,
                                    (omega arith, (omega arith, (omega arith, (omega arith, tt)))),
                                  ),
                                ),
                              ),
                            ),
                          ),
                        ),
                      ),
                    ),
                  ),
                ),
              ),
            ),
          ),
        ),
      ),
    ),
  ),
)

abbrev pub metadata_text : CsiDataPacket → List ℕ
metadata_text p =
    lines_text (date_lines p) ++ (lines_text (mac_line p.mac ∷ field_lines (rows p)) ++ raw_label)

date_lines-Short : (p : CsiDataPacket) → All (Short 25) (date_lines p)
date_lines-Short p = option_cases (All (Short 25)) p.date_time _ _ (λ d. (date_line-Short d, tt)) tt

pub metadata-Writes : (p : CsiDataPacket) → Writes (write_metadata p) (metadata_text p)
unfolding write_metadata
metadata-Writes p =
    let m = mac_line-Short p.mac in
    write_lines-Writes (date_lines p) (lines_few 25 (date_lines p) (date_lines-Short p))
    ⨠ write_lines-Writes (mac_line p.mac ∷ field_lines (rows p))
        (m.few, lines_few 4 (field_lines (rows p)) (rows-Short p))
    ⨠ write_once-Writes raw_label (omega arith)

date_length : (p : CsiDataPacket) → length (lines_text (date_lines p)) ≤ 550
date_length p =
    option_cases (λ ls. length (lines_text ls) ≤ 550) p.date_time _ _
      (λ d. omega (
        arith,
        length-append (join_pieces (date_line d)) [],
        length-line 25 (date_line d) (date_line-Short d),
      ))
      (omega arith)

pub metadata_length : (p : CsiDataPacket) → length (metadata_text p) ≤ 3328
metadata_length p =
    let mac = join_pieces (mac_line p.mac) in
    let rest = lines_text (field_lines (rows p)) in
    omega (
      arith,
      length-append (lines_text (date_lines p)) ((mac ++ rest) ++ raw_label),
      length-append (mac ++ rest) raw_label,
      length-append mac rest,
      date_length p,
      length-line 19 (mac_line p.mac) (mac_line-Short p.mac),
      length-lines (field_lines (rows p)) (rows-Short p),
    )
