-- ===== src/Diagnostics/Tables.antt =====
-- The tables of OdbcError.cpp: SQL codes and server codes with the place of their SQLSTATE, and the
-- SQLSTATEs. A row of the first two is the place, 0 for none, and the code.
use Prim.Native.Char.{code}
use Prim.Native.String.{String}
use firebird_odbc_driver.Base.{
  ℕ, zero, suc, ◌^◌, ◌/◌, ◌+◌, ◌-◌, ◌*◌, ◌%◌, Bool, true, false, Option, none, some, List, [], ◌∷◌,
  ◌==◌, if◌then◌else◌, get_or, leb, ◌&&◌,
}
use firebird_odbc_driver.Base.Int.{ℤ, pos, negsuc, pos_part, neg_part}

-- The chars of a text before its terminator.
abbrev pub chars : String → List ℕ
chars String.[] = []
chars (String.◌∷◌ c s) = code c ∷ chars s

-- The integer -n.
abbrev pub minus : ℕ → ℤ
minus n = if n == 0 then pos 0 else negsuc (n - 1)

abbrev iso : String → Bool × List ℕ
iso s = (false, chars s)

abbrev odbc : String → Bool × List ℕ
odbc s = (true, chars s)

-- `listSqlErrorLink`
unfoldable pub list_sql_error_link : List (ℕ × ℤ)
list_sql_error_link =
    (53, minus 1)
    ∷ (0, minus 84)
    ∷ (0, minus 85)
    ∷ (0, minus 103)
    ∷ (0, minus 104)
    ∷ (0, minus 105)
    ∷ (0, minus 150)
    ∷ (0, minus 151)
    ∷ (0, minus 155)
    ∷ (0, minus 157)
    ∷ (0, minus 158)
    ∷ (0, minus 162)
    ∷ (0, minus 170)
    ∷ (0, minus 171)
    ∷ (0, minus 172)
    ∷ (0, minus 203)
    ∷ (55, minus 204)
    ∷ (0, minus 205)
    ∷ (0, minus 206)
    ∷ (0, minus 208)
    ∷ (0, minus 219)
    ∷ (0, minus 230)
    ∷ (0, minus 231)
    ∷ (0, minus 232)
    ∷ (0, minus 233)
    ∷ (0, minus 234)
    ∷ (0, minus 235)
    ∷ (0, minus 236)
    ∷ (0, minus 237)
    ∷ (0, minus 238)
    ∷ (0, minus 239)
    ∷ (0, minus 240)
    ∷ (0, minus 241)
    ∷ (0, minus 242)
    ∷ (0, minus 243)
    ∷ (0, minus 244)
    ∷ (0, minus 245)
    ∷ (0, minus 246)
    ∷ (0, minus 247)
    ∷ (0, minus 248)
    ∷ (0, minus 249)
    ∷ (0, minus 250)
    ∷ (0, minus 251)
    ∷ (0, minus 252)
    ∷ (0, minus 253)
    ∷ (0, minus 254)
    ∷ (0, minus 255)
    ∷ (0, minus 257)
    ∷ (0, minus 258)
    ∷ (0, minus 259)
    ∷ (0, minus 260)
    ∷ (0, minus 261)
    ∷ (0, minus 281)
    ∷ (0, minus 282)
    ∷ (0, minus 283)
    ∷ (0, minus 284)
    ∷ (0, minus 291)
    ∷ (0, minus 292)
    ∷ (0, minus 293)
    ∷ (0, minus 294)
    ∷ (0, minus 295)
    ∷ (0, minus 296)
    ∷ (0, minus 297)
    ∷ (0, minus 313)
    ∷ (0, minus 314)
    ∷ (0, minus 315)
    ∷ (0, minus 383)
    ∷ (0, minus 401)
    ∷ (0, minus 402)
    ∷ (0, minus 406)
    ∷ (0, minus 407)
    ∷ (0, minus 413)
    ∷ (0, minus 501)
    ∷ (0, minus 502)
    ∷ (0, minus 504)
    ∷ (0, minus 508)
    ∷ (0, minus 510)
    ∷ (0, minus 518)
    ∷ (0, minus 519)
    ∷ (0, minus 530)
    ∷ (0, minus 531)
    ∷ (0, minus 532)
    ∷ (0, minus 551)
    ∷ (0, minus 552)
    ∷ (0, minus 553)
    ∷ (0, minus 595)
    ∷ (0, minus 596)
    ∷ (0, minus 597)
    ∷ (0, minus 598)
    ∷ (0, minus 599)
    ∷ (0, minus 600)
    ∷ (0, minus 601)
    ∷ (0, minus 604)
    ∷ (0, minus 605)
    ∷ (0, minus 607)
    ∷ (0, minus 612)
    ∷ (0, minus 615)
    ∷ (0, minus 616)
    ∷ (0, minus 617)
    ∷ (0, minus 618)
    ∷ (0, minus 625)
    ∷ (0, minus 637)
    ∷ (0, minus 660)
    ∷ (0, minus 663)
    ∷ (0, minus 664)
    ∷ (0, minus 677)
    ∷ (0, minus 685)
    ∷ (0, minus 689)
    ∷ (0, minus 690)
    ∷ (0, minus 691)
    ∷ (0, minus 692)
    ∷ (0, minus 693)
    ∷ (0, minus 694)
    ∷ (0, minus 802)
    ∷ (0, minus 803)
    ∷ (0, minus 804)
    ∷ (0, minus 806)
    ∷ (0, minus 807)
    ∷ (0, minus 808)
    ∷ (0, minus 809)
    ∷ (0, minus 810)
    ∷ (0, minus 811)
    ∷ (0, minus 816)
    ∷ (0, minus 817)
    ∷ (0, minus 820)
    ∷ (0, minus 823)
    ∷ (0, minus 824)
    ∷ (0, minus 825)
    ∷ (0, minus 826)
    ∷ (0, minus 827)
    ∷ (0, minus 828)
    ∷ (0, minus 829)
    ∷ (0, minus 830)
    ∷ (0, minus 831)
    ∷ (0, minus 832)
    ∷ (0, minus 833)
    ∷ (0, minus 834)
    ∷ (0, minus 835)
    ∷ (0, minus 836)
    ∷ (0, minus 837)
    ∷ (0, minus 838)
    ∷ (0, minus 839)
    ∷ (0, minus 840)
    ∷ (0, minus 841)
    ∷ (0, minus 842)
    ∷ (0, minus 901)
    ∷ (0, minus 902)
    ∷ (0, minus 904)
    ∷ (0, minus 906)
    ∷ (0, minus 909)
    ∷ (0, minus 911)
    ∷ (50, minus 913)
    ∷ (0, minus 922)
    ∷ (0, minus 923)
    ∷ (0, minus 924)
    ∷ (0, minus 926)
    ∷ []

-- `listErrorLink`
unfoldable pub list_error_link : List (ℕ × ℤ)
list_error_link =
    (50, pos 335544336)
    ∷ (50, pos 335544345)
    ∷ (39, pos 335544347)
    ∷ (39, pos 335544349)
    ∷ (20, pos 335544375)
    ∷ (23, pos 335544421)
    ∷ (39, pos 335544466)
    ∷ (45, pos 335544472)
    ∷ (39, pos 335544558)
    ∷ (59, pos 335544578)
    ∷ (55, pos 335544580)
    ∷ (25, pos 335544648)
    ∷ (39, pos 335544665)
    ∷ (20, pos 335544721)
    ∷ (25, pos 335544726)
    ∷ (25, pos 335544727)
    ∷ (25, pos 335544741)
    ∷ (23, pos 335544744)
    ∷ (66, pos 335544794)
    ∷ []

-- `codes`, each with `subClassOdbc`
unfoldable pub codes : List (Bool × List ℕ)
codes =
    iso "01000"
    ∷ iso "01001"
    ∷ iso "01002"
    ∷ iso "01003"
    ∷ iso "01004"
    ∷ iso "01006"
    ∷ iso "01007"
    ∷ odbc "01S00"
    ∷ odbc "01S01"
    ∷ odbc "01S02"
    ∷ odbc "01S06"
    ∷ odbc "01S07"
    ∷ odbc "01S08"
    ∷ odbc "01S09"
    ∷ iso "07001"
    ∷ iso "07002"
    ∷ iso "07005"
    ∷ iso "07006"
    ∷ iso "07009"
    ∷ odbc "07S01"
    ∷ iso "08001"
    ∷ iso "08002"
    ∷ iso "08003"
    ∷ iso "08004"
    ∷ iso "08007"
    ∷ odbc "08S01"
    ∷ odbc "21S01"
    ∷ odbc "21S02"
    ∷ iso "22001"
    ∷ iso "22002"
    ∷ iso "22003"
    ∷ iso "22007"
    ∷ iso "22008"
    ∷ iso "22012"
    ∷ iso "22015"
    ∷ iso "22018"
    ∷ iso "22019"
    ∷ iso "22025"
    ∷ iso "22026"
    ∷ iso "23000"
    ∷ iso "24000"
    ∷ iso "25000"
    ∷ odbc "25S01"
    ∷ odbc "25S02"
    ∷ odbc "25S03"
    ∷ iso "28000"
    ∷ iso "34000"
    ∷ iso "3C000"
    ∷ iso "3D000"
    ∷ iso "3F000"
    ∷ iso "40001"
    ∷ iso "40002"
    ∷ iso "40003"
    ∷ iso "42000"
    ∷ odbc "42S01"
    ∷ odbc "42S02"
    ∷ odbc "42S11"
    ∷ odbc "42S12"
    ∷ odbc "42S21"
    ∷ odbc "42S22"
    ∷ iso "44000"
    ∷ iso "HY000"
    ∷ iso "HY001"
    ∷ iso "HY003"
    ∷ iso "HY004"
    ∷ iso "HY007"
    ∷ iso "HY008"
    ∷ iso "HY009"
    ∷ iso "HY010"
    ∷ iso "HY011"
    ∷ iso "HY012"
    ∷ iso "HY013"
    ∷ iso "HY014"
    ∷ iso "HY015"
    ∷ iso "HY016"
    ∷ iso "HY017"
    ∷ iso "HY018"
    ∷ iso "HY019"
    ∷ iso "HY020"
    ∷ iso "HY021"
    ∷ iso "HY024"
    ∷ iso "HY090"
    ∷ iso "HY091"
    ∷ iso "HY092"
    ∷ odbc "HY095"
    ∷ iso "HY096"
    ∷ odbc "HY097"
    ∷ odbc "HY098"
    ∷ odbc "HY099"
    ∷ odbc "HY100"
    ∷ odbc "HY101"
    ∷ iso "HY103"
    ∷ iso "HY104"
    ∷ odbc "HY105"
    ∷ iso "HY106"
    ∷ odbc "HY107"
    ∷ odbc "HY109"
    ∷ odbc "HY110"
    ∷ odbc "HY111"
    ∷ iso "HYC00"
    ∷ odbc "HYT00"
    ∷ odbc "HYT01"
    ∷ odbc "IM001"
    ∷ odbc "IM002"
    ∷ odbc "IM003"
    ∷ odbc "IM004"
    ∷ odbc "IM005"
    ∷ odbc "IM006"
    ∷ odbc "IM007"
    ∷ odbc "IM008"
    ∷ odbc "IM009"
    ∷ odbc "IM010"
    ∷ odbc "IM011"
    ∷ odbc "IM012"
    ∷ odbc "IM013"
    ∷ odbc "IM014"
    ∷ odbc "IM015"
    ∷ []

-- A code as the bits of an `int`.
abbrev pub bits32 : ℤ → ℕ
bits32 (pos n) = n % 2 ^ 32
bits32 (negsuc n) = 2 ^ 32 - 1 - n % 2 ^ 32

-- `DefaultCalcHash`, with `HASH_SIZE` 211.
unfoldable pub default_calc_hash : ℤ → ℕ
default_calc_hash c = bits32 c % 65536 % 211

-- `FbErrorCalcHash`, with `HASH_SIZE_ERROR` 21; `| 0x0100` sets one bit.
unfoldable pub fb_error_calc_hash : ℤ → ℕ
fb_error_calc_hash c = let b = bits32 c in (if b / 256 % 2 == 1 then b else b + 256) % 21

-- A hash table, by slot: the rows chained through `collision`.
abbrev pub Table : Type 0 → Type 0
Table R = ℕ → List R

abbrev pub chain : {R : Type 0} → ℕ → R → Table R → Table R
chain slot r t s = if s == slot then r ∷ t s else t s

-- The constructors of the tables: each row goes to the head of its chain.
unfoldable pub fill : {R : Type 0} → (R → ℕ) → List R → Table R → Table R
fill hash [] t = t
fill hash (r ∷ rs) t = fill hash rs (chain (hash r) r t)

abbrev pub empty_table : {R : Type 0} → Table R
empty_table s = []

abbrev pub same_code : ℤ → ℤ → Bool
same_code a b = pos_part a == pos_part b && neg_part a == neg_part b

-- The walk of `CListErrorLinks::findError` along a chain: `none` is the answer false.
unfoldable pub find_code : ℤ → List (ℕ × ℤ) → Option ℕ
find_code c [] = none
find_code c ((link, d) ∷ rs) =
    if same_code c d then (if link == 0 then none else some link) else find_code c rs

-- `CListErrorLinks::findError` on the table filled with the rows.
unfoldable pub find_error : (ℤ → ℕ) → List (ℕ × ℤ) → ℤ → Option ℕ
find_error hash rows c = find_code c (fill (λ r. hash r.1) rows empty_table (hash c))

-- `CALC_HASH`: the four bytes behind the first, as a little-endian number.
unfoldable pub calc_hash : List ℕ → ℕ
calc_hash s =
    (get_or s 1 0 + get_or s 2 0 * 2 ^ 8 + get_or s 3 0 * 2 ^ 16 + get_or s 4 0 * 2 ^ 24) % 211

abbrev pub to_lower : ℕ → ℕ
to_lower c = if leb b'A' c && leb c b'Z' then c + 32 else c

-- `strncasecmp (a, b, n)` of texts without their terminator: whether it is 0.
unfoldable pub same_text : ℕ → List ℕ → List ℕ → Bool
same_text zero a b = true
same_text (suc n) [] [] = true
same_text (suc n) [] (c ∷ b) = false
same_text (suc n) (c ∷ a) [] = false
same_text (suc n) (c ∷ a) (d ∷ b) = to_lower c == to_lower d && same_text n a b

-- The walk of `CListOdbcError::findError` along a chain of rows with their places.
unfoldable pub find_text : List ℕ → List (Bool × List ℕ) → Option Bool
unfolding same_text
find_text s [] = none
find_text s ((o, t) ∷ rs) = if same_text 5 s t then some o else find_text s rs

-- `CListOdbcError::findError`, with `subClassOdbc` of the row that it links to.
unfoldable pub find_state : List ℕ → Option Bool
unfolding calc_hash
find_state s = find_text s (fill (λ r. calc_hash r.1) codes empty_table (calc_hash s))
