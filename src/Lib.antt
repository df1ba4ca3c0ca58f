-- ===== src/Lib.antt =====
-- ESPresso, firmware that gives an old AirPrint printer a modern IPP front: its portable core, as
-- functions on bytes.
--
-- Prelude: names of the libraries, Boolean tests, lists, C strings, binary digits.
-- Ipp models main/ipp_codec.c. Ipp.Buffer is its growing buffer, on a heap that grants or
-- refuses each request; Ipp.Csv its comma-separated lists; Ipp.Walk the loop over an attribute
-- envelope that its functions repeat, written once over a handler, with the parse of an
-- envelope into items (Walk.Parse) and back (Walk.Format, Walk.Message); Ipp.Rewrite
-- `transform_message` and `ipp_codec_rewrite`; Ipp.Select and Ipp.Filter the selection of an
-- answer's attributes and `ipp_codec_filter_response`; Ipp.Inspect `ipp_codec_inspect_request`;
-- Ipp.JobDefaults `normalize_facade_job_defaults` and the request rewriting on top of it;
-- Ipp.Build the messages that the codec builds; Ipp.Target the profile of main/printer_types.h,
-- Ipp.Profile what a printer's answer makes of it (`ipp_codec_apply_printer_attributes`,
-- `ipp_codec_finalize_profile`), and Ipp.Synthesize the attributes that the facade adds to an
-- answer (`append_synthesized_attributes`, `ipp_codec_normalize_printer_response`), with what an
-- answer lacks said by names, without the code's flags, in Ipp.Synthesize.Lacking.
-- Proxy models main/ipp_proxy_core.c, which decides on a request that Ipp.Inspect has read.
-- JobHistory models main/job_history.c, Improv main/improv_serial_codec.c, Stream
-- main/ipp_stream.c over a reader and a writer that are parameters, Raster
-- main/raster_converter.c, and Http main/ipp_http_request.c: Http.Head and Http.Open the head of a
-- request, Http.Blank the blank line that ends it, and Http itself the body. The reader of these
-- two hands out a finite input in pieces whose sizes are a parameter; it may fail at any call.
--
-- A `char` array is the C string that it holds, and an input with its cursor the list of the bytes
-- not yet read. `size_t` and `uint32_t` have 32 bits; bytes are numbers below 256, which a theorem
-- asks for where it matters. Pointers are not NULL. The loop of Ipp.Walk has the number of bytes
-- as fuel, of which each turn takes one at least.
--
-- The loops of Raster have the bytes of the input as fuel, those of Http the bytes that their
-- buffers take; each turn takes one at least.
--
-- Left out: main/ipp_proxy.c, main/web_server.c and what else calls ESP-IDF, mDNS or mbedTLS around
-- this core: sockets, tasks, storage, Wi-Fi, TLS; the responder of main/dns_server.c; the floating
-- point arithmetic of `media_dimensions`, which is a parameter (Ipp.Synthesize.Media).
pub mod Prelude
pub mod Improv
pub mod Ipp
pub mod JobHistory
pub mod Proxy
pub mod Stream
pub mod Raster
pub mod Http
