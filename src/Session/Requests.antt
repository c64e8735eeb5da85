-- ===== src/Session/Requests.antt =====
-- Which requests of a connection reach `request_cb_` (src/transport/session.cpp), and how often.
use http2_server.Prelude.{
  ℕ, ◌≡◌, refl, sym, ap, ◌∙◌, ◌≢◌, Option, none, some, List, [], ◌∷◌, ◌++◌, map, Bool, true, false,
  ◌==◌, eq_iff, keep_if, if◌then◌else◌, All, append_assoc, append-nil, arith,
}
use http2_server.Prelude.Text.{Text, codes, text_eq}
use http2_server.Prelude.Int.{ℤ, int_eq}
use http2_server.Prelude.Map.{lookup, Distinct}
use http2_server.Nghttp2.{Frame, end_stream}
use http2_server.Session.{
  StreamData, Streams, Invocation, Event, header, frame_recv, data_chunk, entry, opens_request,
  stream_close, store_header, append_body, run, invoke, new_stream,
}
use http2_server.Session.Streams.{on_stream, for_stream, run_alone, run_isolated}

-- The header callbacks of one frame.
abbrev pub headers_of : Frame → List (Text × Text) → List Event
headers_of f [] = []
headers_of f ((name, value) ∷ hs) = header f name value ∷ headers_of f hs

-- The chunks of a body, each with the flags of the frame that it came in.
abbrev pub chunks_of : ℤ → List (ℕ × Text) → List Event
chunks_of i [] = []
chunks_of i ((flags, content) ∷ cs) = data_chunk flags i content ∷ chunks_of i cs

abbrev pub join : List (ℕ × Text) → Text
join [] = []
join ((flags, content) ∷ cs) = content ++ join cs

-- The value of the last header of this name, or the old one.
abbrev pub last_value : Text → Text → List (Text × Text) → Text
last_value name now [] = now
last_value name now ((n, v) ∷ hs) = last_value name (if n == name then v else now) hs

-- A frame of request headers on this stream, with or without the end of the stream.
pub record Opens (f : Frame) (i : ℤ) (ends : Bool) : Type 0 where
  pub request : opens_request f ≡ true
  pub stream : f.stream_id ≡ i
  pub ending : end_stream f.flags ≡ ends

-- The invocation with these headers and this body.
abbrev pub asked_with : ℤ → List (Text × Text) → Text → Invocation
asked_with i hs body = record {
  method = last_value (codes ":method") [] hs;
  path = last_value (codes ":path") [] hs;
  body = body;
  stream_id = i;
}

after_headers : List (Text × Text) → StreamData → StreamData
after_headers [] d = d
after_headers ((n, v) ∷ hs) d = after_headers hs (store_header n v d)

method_ne_path : codes ":method" ≢ codes ":path"
unfolding codes
method_ne_path h = cc

store_header-parts :
    (n v : Text) (d : StreamData)
    → store_header n v d ≡ record {
      method = (if n == codes ":method" then v else d.method);
      path = (if n == codes ":path" then v else d.path);
      body = d.body;
    }
unfolding store_header
store_header-parts n v d =
    ground (arith, eq_iff n (codes ":method"), eq_iff n (codes ":path"), method_ne_path)

after_headers-parts :
    (hs : List (Text × Text)) (d : StreamData)
    → after_headers hs d ≡ record {
      method = last_value (codes ":method") d.method hs;
      path = last_value (codes ":path") d.path hs;
      body = d.body;
    }
unfolding after_headers
after_headers-parts [] d = refl
after_headers-parts ((n, v) ∷ hs) d =
    ap (after_headers hs) (store_header-parts n v d) ∙ after_headers-parts hs _

run_alone-more_headers :
    (f : Frame) (hs : List (Text × Text)) (d : StreamData) (rest : List Event)
    → opens_request f ≡ true
    → run_alone (some d) (headers_of f hs ++ rest) ≡ run_alone (some (after_headers hs d)) rest
unfolding run_alone after_headers
run_alone-more_headers f [] d rest h = refl
run_alone-more_headers f ((n, v) ∷ hs) d rest h =
    ground (arith, run_alone-more_headers f hs (store_header n v d) rest h)

-- What a stream holds after a frame's headers, whether or not there were any.
run_alone-headers :
    (f : Frame) (hs : List (Text × Text)) (d : Option StreamData) (rest : List Event)
    → opens_request f ≡ true
    → (next : Option StreamData) × (run_alone d (headers_of f hs ++ rest) ≡ run_alone next rest)
      × (entry next ≡ after_headers hs (entry d))
unfolding run_alone after_headers
run_alone-headers f [] d rest h = (d, refl, refl)
run_alone-headers f ((n, v) ∷ hs) d rest h = (
  some (after_headers hs (store_header n v (entry d))),
  ground (arith, run_alone-more_headers f hs (store_header n v (entry d)) rest h),
  refl,
)

-- An event of a stream behind the frame of its request headers that does not bring its end by a
-- chunk: a chunk without END_STREAM; a frame that is received, each DATA frame behind its chunks
-- included; and the headers and the frame of trailers.
abbrev pub IsInside : Event → Type 0
IsInside (header f name value) = opens_request f ≡ false
IsInside (frame_recv f) = opens_request f ≡ false
IsInside (data_chunk flags i content) = end_stream flags ≡ false
IsInside (stream_close i code) = ⊥

-- A frame that is received and is none of request headers.
abbrev pub IsOtherFrame : Event → Type 0
IsOtherFrame (frame_recv f) = opens_request f ≡ false
IsOtherFrame _ = ⊥

-- The bytes of the chunks among some events.
abbrev pub body_of : List Event → Text
body_of [] = []
body_of (data_chunk flags i content ∷ es) = content ++ body_of es
body_of (_ ∷ es) = body_of es

run_alone-inside :
    (es : List Event) (d : Option StreamData) (rest : List Event)
    → All IsInside es
    → (next : Option StreamData) × (run_alone d (es ++ rest) ≡ run_alone next rest)
      × (entry next ≡ append_body (body_of es) (entry d))
unfolding run_alone
run_alone-inside [] d rest h = (d, refl, ground (arith, append-nil (entry d).body))
run_alone-inside (header f name value ∷ es) d rest h =
    let (next, e, q) = run_alone-inside es d rest h.1 in (next, ground arith, q)
run_alone-inside (frame_recv f ∷ es) d rest h =
    let (next, e, q) = run_alone-inside es d rest h.1 in (next, ground arith, q)
run_alone-inside (data_chunk flags i content ∷ es) d rest h =
    let (next, e, q) = run_alone-inside es (some (append_body content (entry d))) rest h.1 in
    (next, ground arith, ground (arith, append_assoc (entry d).body content (body_of es)))
run_alone-inside (stream_close i code ∷ es) d rest h = absurd h.0

-- Frames that are received behind the end of a stream call nothing back.
run_alone-frames :
    (es : List Event) (d : Option StreamData) → All IsOtherFrame es → (run_alone d es).1 ≡ []
unfolding run_alone
run_alone-frames [] d h = refl
run_alone-frames (frame_recv f ∷ es) d h = ground (arith, run_alone-frames es d h.1)
run_alone-frames (header f name value ∷ es) d h = absurd h.0
run_alone-frames (data_chunk flags i content ∷ es) d h = absurd h.0
run_alone-frames (stream_close i code ∷ es) d h = absurd h.0

-- A frame of headers that does not end the stream calls nothing back.
run_alone-frame :
    (f : Frame) (d : Option StreamData) (rest : List Event)
    → end_stream f.flags ≡ false
    → run_alone d (frame_recv f ∷ rest) ≡ run_alone d rest
unfolding run_alone
run_alone-frame f d rest h = ground arith

-- A request with a body: its headers, their frame, and what comes behind them.
abbrev pub begun : Frame → List (Text × Text) → List Event → List Event
begun f hs rest = headers_of f hs ++ (frame_recv f ∷ rest)

run_alone-begun :
    (f : Frame) (i : ℤ) (hs : List (Text × Text)) (es rest : List Event)
    → Opens f i false
    → All IsInside es
    → (next : Option StreamData) × (run_alone none (begun f hs (es ++ rest)) ≡ run_alone next rest)
      × (invoke i (entry next) ≡ asked_with i hs (body_of es))
run_alone-begun f i hs es rest o h =
    let (opened, e, q) = run_alone-headers f hs none (frame_recv f ∷ (es ++ rest)) o.request in
    let (next, e', q') = run_alone-inside es opened rest h in
    (
      next,
      e ∙ run_alone-frame f opened (es ++ rest) o.ending ∙ e',
      ap (invoke i) (q' ∙ ap (append_body (body_of es)) (q ∙ after_headers-parts hs new_stream)),
    )

-- What the callbacks of a stream that was not known come to, by its own events.
own_calls :
    (s : Streams) (es own : List Event) (i : ℤ)
    → Distinct s
    → lookup i s ≡ none
    → keep_if (on_stream i) es ≡ own
    → keep_if (for_stream i) (run s es).1 ≡ (run_alone none own).1
own_calls s es own i d fresh e =
    (run_isolated s es i d).1
    ∙ ap (λ x. (run_alone x (keep_if (on_stream i) es)).1) fresh
    ∙ ap (λ x. (run_alone none x).1) e

-- The body after each chunk, behind what came before.
abbrev pub parts : Text → List (ℕ × Text) → List Text
parts sofar [] = []
parts sofar ((flags, content) ∷ cs) = (sofar ++ content) ∷ parts (sofar ++ content) cs

-- The last of some texts.
abbrev pub last_of : Text → List Text → Text
last_of now [] = now
last_of now (t ∷ ts) = last_of t ts

pub last_of-parts :
    (sofar : Text) (cs : List (ℕ × Text)) → last_of sofar (parts sofar cs) ≡ sofar ++ join cs
last_of-parts sofar [] = sym (append-nil sofar)
last_of-parts sofar ((flags, content) ∷ cs) =
    last_of-parts (sofar ++ content) cs ∙ append_assoc sofar content (join cs)

run_alone-parts :
    (i : ℤ) (cs : List (ℕ × Text)) (frames : List Event) (d : Option StreamData)
    (hs : List (Text × Text)) (sofar : Text)
    → All (λ c. end_stream c.0 ≡ true) cs
    → All IsOtherFrame frames
    → invoke i (entry d) ≡ asked_with i hs sofar
    → (run_alone d (chunks_of i cs ++ frames)).1 ≡ map (asked_with i hs) (parts sofar cs)
unfolding run_alone
run_alone-parts i [] frames d hs sofar h k q = run_alone-frames frames d k
run_alone-parts i ((flags, content) ∷ cs) frames d hs sofar h k q = ground (
  arith,
  run_alone-parts i cs frames (some (append_body content (entry d))) hs (sofar ++ content) h.1 k,
)

module _ (s : Streams) (es : List Event) (i : ℤ) (f : Frame) (hs : List (Text × Text)) where
  -- In a table with one entry for each stream, a stream that has none yet, whose header frame does
  -- not end it, and whose last DATA frame comes in chunks flagged END_STREAM, behind any chunks and
  -- frames that do not end it, among the events of any other streams: `request_cb_` is called for
  -- each of those last chunks, with the last `:method` and `:path` and with the part of the body
  -- that has come so far.
  pub run_split :
      (inside : List Event) (cs : List (ℕ × Text)) (frames : List Event)
      → Distinct s
      → lookup i s ≡ none
      → Opens f i false
      → All IsInside inside
      → All (λ c. end_stream c.0 ≡ true) cs
      → All IsOtherFrame frames
      → keep_if (on_stream i) es ≡ begun f hs (inside ++ (chunks_of i cs ++ frames))
      → keep_if (for_stream i) (run s es).1 ≡ map (asked_with i hs) (parts (body_of inside) cs)
  run_split inside cs frames d fresh o h k l e =
      let (next, r, q) = run_alone-begun f i hs inside (chunks_of i cs ++ frames) o h in
      own_calls s es _ i d fresh e
      ∙ ap (λ x. x.1) r
      ∙ run_alone-parts i cs frames next hs (body_of inside) k l q

  -- In a table with one entry for each stream, a stream that has none yet, whose header frame does
  -- not end it, and whose last DATA frame comes in one chunk, flagged END_STREAM, behind any chunks
  -- and frames that do not end it, among the events of any other streams: `request_cb_` is called
  -- once for it, with the last `:method` and `:path` and with all the chunks joined in their order.
  pub run_request :
      (inside : List Event) (flags : ℕ) (content : Text) (frames : List Event)
      → Distinct s
      → lookup i s ≡ none
      → Opens f i false
      → All IsInside inside
      → end_stream flags ≡ true
      → All IsOtherFrame frames
      → keep_if (on_stream i) es ≡ begun f hs (inside ++ (data_chunk flags i content ∷ frames))
      → keep_if (for_stream i) (run s es).1 ≡ asked_with i hs (body_of inside ++ content) ∷ []
  run_request inside flags content frames d fresh o h ends l e =
      run_split inside ((flags, content) ∷ []) frames d fresh o h (ends, tt) l e

  -- In a table with one entry for each stream, a stream that has none yet and that its frame of
  -- one header or more ends, among the events of any other streams: `request_cb_` is called once
  -- for it, with the last `:method` and `:path` and with an empty body.
  run_bodyless :
      (n v : Text)
      → Distinct s
      → lookup i s ≡ none
      → Opens f i true
      → keep_if (on_stream i) es ≡ headers_of f ((n, v) ∷ hs) ++ frame_recv f ∷ []
      → keep_if (for_stream i) (run s es).1 ≡ asked_with i ((n, v) ∷ hs) [] ∷ []
  run_bodyless n v d fresh o e =
      own_calls s es _ i d fresh e
      ∙ (unfold run_alone after_headers in
          ground (
            arith,
            run_alone-more_headers f hs (store_header n v new_stream) (frame_recv f ∷ []) o.request,
            after_headers-parts ((n, v) ∷ hs) new_stream,
            o.ending,
            o.stream,
          ))

  -- In a table with one entry for each stream, a stream that has none yet, whose header frame does
  -- not end it, and which gets no chunk flagged END_STREAM, as when an empty DATA frame or trailers
  -- end it, among the events of any other streams: `request_cb_` is not called for it at all.
  pub run_lost :
      (inside : List Event)
      → Distinct s
      → lookup i s ≡ none
      → Opens f i false
      → All IsInside inside
      → keep_if (on_stream i) es ≡ begun f hs inside
      → keep_if (for_stream i) (run s es).1 ≡ []
  run_lost inside d fresh o h e =
      run_split inside [] [] d fresh o h tt tt (e ∙ ap (begun f hs) (sym (append-nil inside)))
