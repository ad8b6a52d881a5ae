-- ===== src/Redis/Reply/Print.antt =====
-- The responses of a redis server, and how it writes them: the counterpart of redis_parse_rsp of
-- src/proto/nc_redis.c.
use twemproxy.Common.{ℕ, suc, ◌^◌, ◌<◌, ◌≡◌, List, [], ◌∷◌, ◌++◌, length, false, ◌==◌, ◌||◌, All}
use twemproxy.Message.{MsgType}
use twemproxy.Redis.Print.{print_number}
use twemproxy.Redis.Parse.Steps.{cr, lf}
use twemproxy.Redis.Reply.State.{Rsp}
use twemproxy.Redis.Reply.Steps.{error_words, error_type}
use twemproxy.Redis.Reply.Line.{IsLine}

-- An element of a multi bulk: a string, an absent one, or the line of a status, an error or an
-- integer.
pub data Element : Type 0 where
  text : List ℕ → Element
  absent : Element
  status_line error_line integer_line : List ℕ → Element

-- A multi bulk is a list of elements, which may have another list as its last element, and so on.
pub data Reply : Type 0 where
  status : List ℕ → Reply
  error : List ℕ → List ℕ → Reply
  integer negative : ℕ → Reply
  bulk : List ℕ → Reply
  null_bulk null_multibulk : Reply
  multibulk : List Element → List (List Element) → Reply

unfoldable pub print_element : Element → List ℕ
print_element (Element.text bytes) =
    b'$' ∷ print_number (length bytes) ++ cr ∷ lf ∷ (bytes ++ cr ∷ lf ∷ [])
print_element Element.absent = b'$' ∷ b'-' ∷ b'1' ∷ cr ∷ lf ∷ []
print_element (Element.status_line line) = b'+' ∷ line ++ cr ∷ lf ∷ []
print_element (Element.error_line line) = b'-' ∷ line ++ cr ∷ lf ∷ []
print_element (Element.integer_line line) = b':' ∷ line ++ cr ∷ lf ∷ []

unfoldable pub print_elements : List Element → List ℕ
print_elements [] = []
print_elements (e ∷ elements) = print_element e ++ print_elements elements

-- The number of elements of a list, with the list behind them.
abbrev pub size : List Element → List (List Element) → ℕ
size elements [] = length elements
size elements (next ∷ lists) = suc (length elements)

-- Lists, each the last element of the one before, with the bytes `rest` behind them.
unfoldable pub print_lists : List (List Element) → List ℕ → List ℕ
print_lists [] rest = rest
print_lists (elements ∷ lists) rest =
    b'*' ∷ print_number (size elements lists)
    ++ cr ∷ lf ∷ (print_elements elements ++ print_lists lists rest)

-- The number of elements of the innermost list.
abbrev pub last_size : List Element → List (List Element) → ℕ
last_size elements [] = length elements
last_size elements (next ∷ lists) = last_size next lists

-- A reply with the bytes `rest` behind it. An error is its first word and, behind a space, the rest.
unfoldable pub print_reply : Reply → List ℕ → List ℕ
print_reply (Reply.status line) rest = b'+' ∷ line ++ cr ∷ lf ∷ rest
print_reply (Reply.error word line) rest = b'-' ∷ word ++ b' ' ∷ (line ++ cr ∷ lf ∷ rest)
print_reply (Reply.integer n) rest = b':' ∷ print_number n ++ cr ∷ lf ∷ rest
print_reply (Reply.negative n) rest = b':' ∷ b'-' ∷ print_number n ++ cr ∷ lf ∷ rest
print_reply (Reply.bulk bytes) rest =
    b'$' ∷ print_number (length bytes) ++ cr ∷ lf ∷ (bytes ++ cr ∷ lf ∷ rest)
print_reply Reply.null_bulk rest = b'$' ∷ b'-' ∷ b'1' ∷ cr ∷ lf ∷ rest
print_reply Reply.null_multibulk rest = b'*' ∷ b'-' ∷ b'1' ∷ cr ∷ lf ∷ rest
print_reply (Reply.multibulk elements lists) rest = print_lists (elements ∷ lists) rest

-- A first word: no space and no carriage return.
abbrev pub IsWord : List ℕ → Type 0
IsWord word = All (λ b. (b == b' ' || b == cr) ≡ false) word

-- Lines hold no carriage return, and lengths and numbers are below 2 ^ 32.
abbrev pub IsElement : Element → Type 0
IsElement (Element.text bytes) = length bytes < 2 ^ 32
IsElement Element.absent = Unit
IsElement (Element.status_line line) = IsLine line
IsElement (Element.error_line line) = IsLine line
IsElement (Element.integer_line line) = IsLine line

abbrev pub AreElements : List Element → Type 0
AreElements [] = Unit
AreElements (e ∷ elements) = IsElement e × AreElements elements

abbrev pub AreLists : List (List Element) → Type 0
AreLists [] = Unit
AreLists (elements ∷ lists) = (size elements lists < 2 ^ 32) × AreElements elements × AreLists lists

abbrev pub IsReply : Reply → Type 0
IsReply (Reply.status line) = IsLine line
IsReply (Reply.error word line) = IsWord word × IsLine line
IsReply (Reply.integer n) = n < 2 ^ 32
IsReply (Reply.negative n) = n < 2 ^ 32
IsReply (Reply.bulk bytes) = length bytes < 2 ^ 32
IsReply Reply.null_bulk = Unit
IsReply Reply.null_multibulk = Unit
IsReply (Reply.multibulk elements lists) = AreLists (elements ∷ lists)

-- What is known of a reply when it has been parsed: its type, of an error by its first word, and the
-- value of an integer, but not its sign; of a multi bulk the number of elements of its innermost list.
abbrev pub IsRead : Reply → Rsp → Type 0
IsRead (Reply.status line) r = r.type ≡ MsgType.rsp_redis_status
IsRead (Reply.error word line) r =
    r.type ≡ error_type MsgType.rsp_redis_error error_words (b'-' ∷ word)
IsRead (Reply.integer n) r = (r.type ≡ MsgType.rsp_redis_integer) × (r.integer ≡ n)
IsRead (Reply.negative n) r = (r.type ≡ MsgType.rsp_redis_integer) × (r.integer ≡ n)
IsRead (Reply.bulk bytes) r = r.type ≡ MsgType.rsp_redis_bulk
IsRead Reply.null_bulk r = r.type ≡ MsgType.rsp_redis_bulk
IsRead Reply.null_multibulk r = r.type ≡ MsgType.rsp_redis_multibulk
IsRead (Reply.multibulk elements lists) r =
    (r.type ≡ MsgType.rsp_redis_multibulk) × (r.narg ≡ last_size elements lists)
