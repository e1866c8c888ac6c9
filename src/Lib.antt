-- ===== src/Lib.antt =====
-- A verification library for librespot, a client of the Spotify services written in Rust.
--
-- The program. A session (crate core) keeps a connection to an access point, over which encrypted
-- packets travel, and a web socket to the dealer, which sends requests and messages that are handed
-- to handlers by their path. Everything that is played is named by a URI, with an identifier inside.
-- The crate connect keeps the state that is shared with the other devices: the context that is
-- played (an album, a playlist), the queue, the options. The crate playback plays a track, whose
-- file the crate audio downloads in ranges, as they are needed. The other crates read metadata,
-- find devices in the local network, log in, or speak AirPlay.
--
-- The modules and the code they are about:
--   Base            Boolean tests, lists over the native numbers, machine words, numerals, Rust's
--                   Result, texts (lists of bytes) and maps (lists of entries)
--   Audio.RangeSet  audio/src/range_set.rs: RangeSet, the parts of a file that are loaded
--   Audio.Fetch     audio/src/fetch/mod.rs: the shared status of a download, StreamLoaderController
--                   (Controller, Blocking) and the reader AudioFile (Reader, ReadBack); Receive and
--                   System are audio/src/fetch/receive.rs: AudioFileFetch with its streams and its
--                   messages, audio_file_fetch and receive_data as steps
--   Core.SpotifyId  core/src/spotify_id.rs: SpotifyId, in base 62, base 16 and as 16 bytes
--   Core.SpotifyUri core/src/spotify_uri.rs: SpotifyUri, from_uri and to_uri
--   Core.Codec      core/src/connection/codec.rs: ApCodec, the framing of encrypted packets
--   Core.Cache      core/src/cache.rs: SizeLimiter and FsSizeLimiter::prune
--   Core.Channel    core/src/channel.rs: Channel as a stream, and SeqGenerator of core/src/util.rs;
--                   Core.Channel.Manager is ChannelManager with all the channels it allocated
--   Core.Dealer     core/src/dealer/maps.rs: HandlerMap, and in Core.Dealer.Subscribers
--                   SubscriberMap
--   Connect.ShuffleVec  connect/src/shuffle_vec.rs: ShuffleVec
--   Connect.Track   connect/src/state/provider.rs and metadata.rs: ProvidedTrack
--   Connect.State   connect/src/state.rs and, in connect/src/state/, tracks.rs, context.rs,
--                   options.rs and restrictions.rs: ConnectState. FillUp is fill_up_next_tracks,
--                   Move is next_track, prev_track and set_current_track, Edit has the changes of
--                   the queue, the shuffle, the status and reset_playback_to_position, Context the
--                   contexts and options, Restrict update_restrictions, Handle the handlers of
--                   connect/src/state/handle.rs
--   Connect.Update  connect/src/state/context.rs: the contexts as the server sends them. Pages is
--                   update_context and fill_context_from_page, Merge is merge_context, PageUrl is
--                   page_url_to_uri
--   Connect.Resolver  connect/src/context_resolver.rs: the queue of ContextResolver, and in Apply
--                   get_next_context and apply_next_context
--
-- How the code is translated. A function keeps the name of the Rust function; a method with
-- `&mut self` takes the state and returns the new one. A method that can fail returns the result
-- beside the state, since its changes stay when it fails; a chain of `?` is `and_next` there, and a
-- do block where no state changes. A panic is `none`, or an error of its own. The fields of messages
-- that the code neither reads nor writes are left out, and so are log lines. A HashMap is a list of
-- entries with one entry for a key. What several threads or tasks share is one state, and the
-- orders in which they may run are the sequences of a step relation: the download, the limiter of
-- the cache, the manager of the channels and the resolver have such relations. The sender of a
-- queue and its receiver are one record, with a flag that tells whether they are connected.
--
-- Numbers. `usize` is 64 bits wide and wraps around, as in a release build; an `as u32` is a
-- remainder. Loops are structural recursion, or recursion on fuel: 64 rounds for the words that
-- to_base62 carries on, of which each round takes several bits; 20 digits for a u64; for prune one
-- round for each file and one more, since each round takes a file out; and for
-- fill_up_next_tracks `rounds_left`, which counts the tracks that can still be added and, between two
-- of them, the tracks of a context that can be skipped. The loop of fetch_blocking goes over the
-- list of its wake-ups, of which there is one for each round.
--
-- What is a parameter. The cipher Shannon of ApCodec, the random number generator of ShuffleVec and
-- the priority queue of SizeLimiter, which are of other crates, are records of operations; the
-- theorems name what they rely on: that the two ends of the cipher stay in step, that a draw is in
-- its range, and that the queue gives the entry of the highest priority. The start of a stream of
-- the content server, the file of the server, the failures of the file that is written and of its receiver (Outside in
-- Audio.Fetch.Receive), the removal of files from the disk, the hash of the
-- queue revision, new uuids, the answers to requests for contexts and the
-- derived equality of ResolveContext are functions.
--
-- What is not modelled. Of the session only the loop over the packets is, not the handshake, the
-- keep-alive and the login; neither are the dealer's connection, spclient, mercury, the player's
-- thread, the decoders and audio backends, discovery, metadata and AirPlay, nor the generated code
-- of the crate protocol. Of the download the opening of a file is left out, of the cache the search
-- of its directories, of the channels the halves ChannelHeaders and ChannelData, which only take
-- items of the stream. Of ConnectState the transfer, the playback speed, the position and the
-- sending of the state are left out, and of the resolver try_finish, which ends a transfer.
pub mod Base
pub mod Audio
pub mod Core
pub mod Connect
